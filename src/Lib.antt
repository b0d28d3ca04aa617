-- ===== src/Lib.antt =====
-- Melete is a sharded blockchain emulator: three protocols (melete, pyramid, rapid) over shared
-- parts. A leader proposes a block, cuts its encoding into parts with Merkle proofs and sends
-- them; validators collect the parts, decode the block, vote, and pass their shard's decision on
-- to the related shards.
--
-- The files and the code they model (paths from the repository's root):
--   Base.antt         shared names, integers, bytes, bits, Go's panics (`Outcome`),
--                     and messages as bytes (Base/Encoding.antt)
--   Merkle.antt       source/crypto/merkle: tree.go (Tree, Split, Iterative), hash.go (Hash),
--                     proof.go (Verify, Trails)
--   BitVector.antt    source/utils/bit-vector.go
--   Convert.antt      source/utils/convert.go
--   Tx.antt           source/melete/types/tx.go
--   Block.antt        source/melete/types/block.go; its copies in protobuf, with
--                     source/utils/time.go, are Block/Copies.antt and Block/Commit.antt
--   PartSet.antt      source/melete/types/block-part.go, and SplitByteArray of
--                     source/utils/compare-bytes.go; a part's copy is PartSet/Copies.antt
--   Signer.antt       source/utils/signer/bls.go
--   Accepts.antt      source/melete/consensus/constypes/cas_set.go
--   Vote.antt         source/melete/consensus/constypes/vote.go: the votes of a shard (Vote) and
--                     the messages between shards (Vote/Cross.antt, Vote/Copies.antt)
--   RangeTree.antt    source/utils/RangeTree.go: the keys that a shard holds; DeleteRange and reading
--                     from a text are RangeTree/Delete.antt
--   DependencyGraph.antt  source/utils/dep-graph.go
--   Bank.antt         source/melete/abci/minibank: types.go; memdb.go is Bank/Memory.antt, and bank.go
--                     is Bank/Execute.antt (one transaction), Bank/Run.antt (a block on its own
--                     shard, PreExecutionC), Bank/PreExecute.antt (PreExecutionI) and
--                     Bank/Execution.antt (Execution, ValidateTx)
--   Height.antt       source/melete/consensus/height_datas.go: the votes of a height, the messages
--                     that it takes (Height/Receive.antt, and Height/Cross.antt from other shards),
--                     its steps (Height/Step.antt), its beginning and its end (Height/Next.antt)
--   Consensus.antt    source/melete/consensus/main.go: a node's state; Consensus/Create.antt is the
--                     block that a proposer makes, Consensus/Ballots.antt and Consensus/Cross.antt
--                     what a node does at the end of a step, and Consensus/Run.antt the messages
--                     that it takes and the transitions between the steps; Consensus/Decode.antt
--                     is Receive from the bytes on, with the types of
--                     source/melete/definition/message.go, and Consensus/Life.antt what a node
--                     can come to, call by call, from its Start on
--
-- A function of the code is a function by clauses with the code's name in this spelling:
-- `HashFromByteSlices` is `hash_from_byte_slices`. A method that mutates its receiver returns the
-- new state beside its result. An error is a value of a data type, with `none` for nil; a panic is
-- `Outcome.panic`. A byte is a natural number, and a string is its bytes. Go's `int` and `int64`
-- are unbounded integers but where a width decides the result.
--
-- A node uses its application, mempools, signer and clock through the record `Node`, and what it
-- sends or stores is a list in its state. doMessage and handleStateTransition call each other, so
-- they run from a list of the calls that wait; the fuel is the number of calls, and there is no
-- bound on it: a shard with a single validator finishes one height after the other in one call.
-- What holds of such a node is stated of each call that it makes (Consensus/Life.antt), which needs
-- no fuel.
--
-- Bounds and fuel: the recursions on halves of a list take the list's length as fuel, and
-- SplitByteArray the number of bytes; each cut shortens the list by one element at least.
--
-- SHA-256 is any function with digests of 32 bytes (`HashFunction`): what rests on collision
-- resistance is stated as a choice between the result and two messages with one digest. What
-- protobuf makes of a message, and the encoding of times, are parameters (`Codec`, `Protobuf`,
-- `Encoding`); the copies that go in and come out are not. So are signatures (`Bls`). The bank's
-- store and the decoding of its transactions are parameters as well (`Database`, `Wire`). A map is
-- an association list with each key once; what Go iterates over in any order is taken in the
-- list's. The goroutines of the bank, one for each block, run one after the other: each has a
-- database in memory of its own. In Execution a shard's missing range tree panics at once, where
-- the code panics at the first key that is looked up.
--
-- Not modelled: sockets, goroutines, timers, files, logs, printing, generated code and the wrappers
-- of external databases, which have no logic of their own; libs/clist and libs/db, which are copies
-- of another project's; and the parts of the program that the list above does not name.
pub mod Base
pub mod Merkle
pub mod BitVector
pub mod Consensus
pub mod Convert
pub mod Tx
pub mod Block
pub mod PartSet
pub mod Signer
pub mod Accepts
pub mod Vote
pub mod Height
pub mod RangeTree
pub mod Bank
pub mod DependencyGraph
