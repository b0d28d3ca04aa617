-- ===== src/DependencyGraph.antt =====
-- utils/dep-graph.go: which transaction of a block wrote a key last.
use melete.Base.{ℕ, Option}
use melete.Base.Bytes.{Text}
use melete.Base.Table.{Table, lookup, insert, bytes_eq}

abbrev pub DependencyGraph : Type 0
DependencyGraph = Table Text ℕ

-- `AddWrite`
abbrev pub add_write : Text → ℕ → DependencyGraph → DependencyGraph
add_write w index g = insert w index g

-- `AddRead`
abbrev pub add_read : Text → DependencyGraph → Option ℕ
add_read r g = lookup r g
