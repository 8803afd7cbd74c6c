-- ===== src/Lib.antt =====
-- Verification of the consensus code of Eiyaro.
--
-- Script.antt and the files under Script/ model the script language of
-- domain/consensus/utils/txscript, which decides whether an input may spend an output:
--   Script/Outcome.antt     the error codes (error.go), and the result of a method on a mutable
--                           object: a value or an error beside the new object, or a panic
--   Script/Num.antt         scriptNum of scriptnum.go: Bytes, Int32, makeScriptNum
--   Script/Stack.antt       the methods of `stack` in stack.go; the files under Stack/ are proofs
--   Script/Engine.antt      the state of `Engine` in engine.go, and parsedOpcode
--   Script/Parse.antt       parseScriptTemplate, unparseScript, isPushOnly, isScriptHash of
--                           script.go, and parsedOpcode.bytes of opcode.go; the files under Parse/
--                           are proofs
--   Script/Opcode/*.antt    the handlers of opcode.go; Opcode/Table.antt is their dispatch by
--                           opcodeArray; Opcode/MultiSig.antt is the multi-signature checks; Numbers,
--                           Unary, Verify, TimeLocks, Frame and MultiSig/Matching are proofs
--   Script/Exec.antt        executeOpcode, Step, Execute, Init and CheckErrorCondition of engine.go;
--                           Conditions, Skipped, Program, Step, Finish and Ends are proofs
--   Script/Tests.antt       the theorems at concrete inputs, and runs of the code
-- Parsing makes opcodes of the two scripts of an input; Init puts them into an engine; Step runs one
-- handler, which works on the data stack, the alternative stack and the conditional stack; numbers
-- and Booleans on the stack go through Script/Num.antt and Script/Stack.antt.
--
-- A function keeps its Go name in snake case. A byte is a number below 256, a byte slice a list. An
-- int64 or int32 is an integer, wrapped where the Go arithmetic can wrap (Common/Int.antt). A stack is
-- its slice, bottom first.
--
-- Fuel: parse_loop takes the length of the script, since a round consumes a byte at least; the loop
-- in bytes takes 8 rounds, one for each byte of an int64. execute_loop takes its fuel from the caller
-- and returns none where that runs out; Exec/Ends.antt has the measure by which it ends.
--
-- Parameters: hashing and signature verification are the records Crypto and Scheme, as they belong to
-- libraries. The dispatch takes the two multi-signature checks of Opcode/MultiSig.antt as arguments,
-- so that the theorems on Step hold for any two that leave the program alone. Not modelled in Script:
-- the disassembler, the signature caches, the script builder and signing.
-- Utxo.antt and the files under Utxo/ model the UTXO diffs of domain/consensus/utils/utxo, by which
-- consensus keeps the UTXO set of each block relative to another:
--   Utxo/Collection.antt    utxoCollection of utxo_collection.go, a map as an association list;
--                           Collection/Lookup.antt: what a lookup finds after an operation
--   Utxo/Diff.antt          diff_algebra.go (withDiffInPlace, withDiff, diffFrom), Reversed,
--                           addEntry and removeEntry of mutable_utxo_diff.go
--   Utxo/Diff/*.antt        Point.antt has the specification: a diff leads from one UTXO set to
--                           another; WithDiff.antt, DiffFrom.antt and Laws.antt are its proofs
--   Utxo/Transaction.antt   AddTransaction of mutable_utxo_diff.go
--   Utxo/Tests.antt         the theorems at concrete sets
-- AddTransaction changes the diff of the block that is being resolved entry by entry; withDiff joins
-- the diffs of blocks that follow each other, and diffFrom makes one relative to another. Not
-- modelled in Utxo: the invalidation of immutable views, the iterators, the serialization.
--
-- Reachability.antt and the files under Reachability/ model how consensus tells whether a block is an
-- ancestor of another, in domain/consensus/processes/reachabilitymanager:
--   Reachability/Store.antt     the data of a block (domain/consensus/model/reachabilitydata.go,
--                               domain/consensus/utils/reachabilitydata), fetch.go and stage.go
--   Reachability/Interval.antt  interval.go; Interval/Split.antt is proofs
--   Reachability/Tree.antt      the queries of tree.go and ordered_tree_node_set.go; Ordered.antt has
--                               the scan that the binary search stands for, Search.antt its proof
--   Reachability/FutureCovering.antt  future_covering_set.go and reachability.go; Query, Insert,
--                               Insertion and the files under Insert are proofs
--   Reachability/Tests.antt     the theorems at concrete stores
-- A block has an interval, which contains those of its descendants in a tree; the blocks that descend
-- from it otherwise are in the subtrees of its future covering set. The data store is a map, and an
-- error of it that a block is not found; an answer is a value, an error, or a panic. A uint64 wraps
-- at 2^64. The search takes the length of the set as fuel, since each turn shortens its range; the
-- theorem on it gives its result. What interval.go computes with floating-point numbers (the rounded
-- fraction of a size) is an argument. Not modelled in Reachability: reindexing, addChild and AddBlock,
-- which call it, and the choice of the reindex root.
--
-- Validation.antt and the files under Validation/ model the checks of a transaction, in
-- domain/consensus/processes/transactionvalidator:
--   Validation/Transaction.antt  the transaction, the rule errors and the result of a check
--   Validation/Chain.antt        lemmas on checks in a row
--   Validation/Payload.antt      IsValidJSONObject and the heuristics behind it
--   Validation/Isolation.antt    ValidateTransactionInIsolation; the files under Isolation/ are
--                                proofs, with Isolation/Sound.antt the specification
--   Validation/Context.antt      transaction_in_context.go: finality, amounts and fee, coinbase
--                                maturity, sequence locks; the files under Context/
--                                are proofs
--   Validation/Tests.antt        the theorems at concrete transactions
-- A block's transactions are checked in isolation first, and then, with the entries that the UTXO set
-- gives for their inputs, in context. Decoders and the entropy of a string belong to libraries and are
-- the record Libraries; the errors of the payload check, which are one rule error, are a Boolean. Not
-- modelled in Validation: the checks of scripts and of the counts of signature operations, and the
-- goroutines that join them.
--
-- Ghostdag.antt and the files under Ghostdag/ model the order of blocks, in
-- domain/consensus/processes/ghostdagmanager:
--   Ghostdag/Compare.antt   compare.go; Compare/Greatest.antt is proofs
--   Ghostdag/MergeSet.antt  GetSortedMergeSet of mergeset.go; MergeSet/Sorted.antt is proofs
--   Ghostdag/Tests.antt     the theorems at a concrete store
-- A block's selected parent is the greatest of its parents by blue work, and the merge set orders what
-- it accepts. The loop of GetSortedMergeSet takes the lengths of its two lists as fuel, since each turn
-- takes an element of one. Not modelled in Ghostdag: the search for the merge set and the k-cluster
-- check.
--
-- Common.antt passes on the shared helpers: Boolean tests, lists over the native numbers, integers,
-- uint64 arithmetic.
--
-- The rest of the repository (block processing, mempool, network, wallet) is
-- not modelled.
pub mod Common
pub mod Script
pub mod Reachability
pub mod Utxo
pub mod Validation
pub mod Ghostdag
