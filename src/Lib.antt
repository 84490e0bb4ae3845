-- ===== src/Lib.antt =====
-- Two programs of the repository: the core of the parallel executor of pevm/crates/pevm (the
-- schedulers, the dependency graph of the transactions, the multi-version memory and the nonce
-- tracker), and of the consensus of mysticeti/crates/mysticeti-core (the committee, the threshold
-- clock, the verification of blocks, the block store and manager, the range map and the linearizer).
--
-- How the parts of pevm interact. A block is executed once in sequence for its access sets, from which
-- `construct_graph_pevm_by_sequential` (pevm/crates/pevm/src/graph_pevm.rs) builds a `TransactionGraph`
-- (dependency_graph.rs) with an edge for each conflict of writes. The graph may be integrated with
-- others, searched for cycles and reordered. `GraphScheduler` (graph_scheduler.rs) hands its
-- transactions out to worker threads, parents first; `Scheduler` (scheduler.rs) does so without a
-- graph. A worker executes a version in the virtual machine, against the `MvMemory` (mv_memory.rs),
-- reports it, and validates what was read. `NonceTracker` (utils/nonce_tracker.rs) renumbers the
-- transactions of a new order.
--
-- How the parts of mysticeti interact. A block that arrives is verified (`StatementBlock::verify`, with the
-- `Committee` and its stakes) and given to the `BlockManager`, which holds it back until all that it
-- includes is in the `BlockStore`. The threshold clock moves to a new round when the blocks of a quorum of the
-- round before have come. Once leaders are decided the `Linearizer` turns each into a sub-dag of its history, in
-- order, each block once. The votes of a block are ranges of transactions, kept in a `RangeMap`.
--
-- Files, first those on pevm/crates/pevm/src.
--   Prelude, Prelude/*          Boolean tests, lists over native numbers, counting, association lists
--   Pevm/Types                  lib.rs: `IncarnationStatus`, `TxStatus`, `TxVersion`, `Task`, `FinishExecFlags`
--   Pevm/Atomics                `fetch_sub` and `BinaryHeap` of the standard library, as used
--   Pevm/Node                   dependency_graph.rs: `TransactionId`, `TransactionNode`
--   Pevm/GraphScheduler         graph_scheduler.rs: `new`, `next_task` and what it calls
--     Completion                `add_dependency`, `finish_execution`, `try_validation_abort`,
--                               `finish_validation`; its children are lemmas on the loops
--     Workers                   graph_pevm.rs: the worker loop, `try_execute`, `try_validate` as steps
--     Invariant, Invariant/*    the invariant of state and work in hand, one child per operation
--     Safety, Progress          what follows in all reachable states, and in those without work
--   Pevm/DependencyGraph        dependency_graph.rs: `TransactionGraph` up to `add_transaction`
--     Keys, Edges, Building, Adding, Transactions, Contents, Conflicts, Parents   lemmas and theorems
--     Integration, Integration/*                             `integrate_graph`, `edge_count`
--     Cycles                                                 `has_cycle`
--     Suffix, Suffix/*                                       `update_longest_suffix_postorder`
--   Pevm/GraphPevm              graph_pevm.rs: `construct_graph_pevm_by_sequential`,
--                               `reorder_txs_by_dependency_graph`; `TransactionNode::new`
--   Pevm/MvMemory, MvMemory/*   mv_memory.rs: `new`, `record` (here `record_sets`),
--                               `validate_read_locations`, `convert_writes_to_estimates`, lazy addresses
--   Pevm/Scheduler, Scheduler/* scheduler.rs, and the worker loop of pevm.rs
--   Pevm/NonceTracker           utils/nonce_tracker.rs
-- Those on mysticeti/crates/mysticeti-core/src:
--   Mysticeti/Types             types.rs: references, locators, statements and blocks
--   Mysticeti/AuthoritySet      types.rs: `AuthoritySet`
--   Mysticeti/Committee         committee.rs: `Committee`, `StakeAggregator`; Stake and Quorums are lemmas
--   Mysticeti/ThresholdClock    threshold_clock.rs: the aggregator and the check of a block; Rounds, Valid
--   Mysticeti/Blocks            types.rs, committee.rs: `shared_ranges`, `VoteRangeBuilder`,
--                               `shared_transactions`, `verify`; Ranges and Verified
--   Mysticeti/RangeMap          range_map.rs: `mutate_range`; Laid, Skipping, Covering, Rounds and Mutated
--   Mysticeti/BlockStore        block_store.rs: the index, `insert_block` and the lookups; Lookup
--   Mysticeti/Linearizer        consensus/linearizer.rs; Counting, Collecting and Committed
--   Mysticeti/BlockManager      block_manager.rs: `new` and `add_blocks`; Valid is the invariant, and the
--                               others follow a round: Waiting, Lacking, Includes, Releasing,
--                               Unlocking, Inserted, Inserting, Pended, Steps, Added; Wanted,
--                               Tracked, Tracking and Missing are about the field `missing`
-- Modules named Tests hold runs at concrete inputs and the theorems at them.
--
-- How the code is rendered.
--   - A method on `&self` takes the state and returns it with its result. Each method is one atomic
--     step: the interleavings of worker threads are sequences of calls. What two threads do inside
--     two calls at the same time is not modelled; the locks and the atomic operations of the source
--     are finer. For `try_validation_task` of the graph scheduler this makes a difference: it reads the
--     validation index and the heap before it takes an index, and what follows the reads is
--     `claim_validation`, a function of what was read. In the steps nobody comes in between, so no
--     transaction is taken while its entry is in the heap; in the source one may be, which the runs
--     `stale_entry` and `two_threads_execute` of Pevm/GraphScheduler/Tests show to end with two executions
--     of one transaction. What is stated of the reachable states of the graph scheduler is stated of
--     atomic calls. The condition variable and the spinning are rounds of a loop.
--   - The clock is a Boolean per round of `GraphScheduler::next_task`, so the loop is structural over
--     the rounds; that of `Scheduler::next_task` is on fuel, and `again` is a thread still in it.
--   - What depends on the virtual machine (its outcome, the blocking transaction, the flags) is free in
--     a step, but that a transaction blocks on a lower one only. A worker whose machine fails leaves
--     with its task unfinished and the scheduler aborted.
--   - Subtraction and addition on usize and u64 are written with their wrap-around where the source
--     relies on it or may meet it. A read past the end of a vector, where the source panics or is
--     undefined, gives a default; the theorems are about indices inside the block.
--   - A binary heap is its sorted list, a BTreeMap an ordered list with the highest key first, a hash
--     map an association list. The order in which a hash set is iterated over is a parameter
--     (`HashOrder`), known to be a permutation only.
--   - `contains` of the bitflags crate is a parameter (`BitFlags`), known at the two declared flags.
--   - The searches for a cycle and of the longest suffixes are on fuel, one for each node, which is the longest path there can be;
--     the first loop of `record` has one round for each location that was written before.
--   - In mysticeti a panic, or the end of the fuel, is `none`, so that a theorem which says that a function returns `some` says that it
--     ends and does not panic; machine additions are written with their wrap-around. The `u128` of an authority
--     set is a number with its bits computed by the library. A digest is a number, and the cryptography of a
--     block is a parameter (`Crypto`).
--   - A `HashMap` or `HashSet` of the block manager, the store and the linearizer is a list without repeated
--     keys. Where the source iterates over one, the order is a parameter (`Environment`), known only to keep
--     how often an element occurs. An index entry of the store stands for its block, which the source reads back
--     from the log if it is not in memory.
--   - `mutate_range` has one round of fuel for each number of its range; the linearizer one for each stored block
--     and two more; `add_blocks` two for each block given, since a block is looked at once when it comes and once
--     when it is released, one for each pending block and one more.
--
-- Not modelled, in pevm: the virtual machine and the storage (vm.rs, storage.rs, storage/), sequential
-- execution and the evaluation of lazy balances (pevm.rs), the simulation and the statistics of
-- dependency_graph.rs, greedy_integrator.rs, the interfaces and serialization, and all diagnostics. In
-- mysticeti: the committers (consensus/base_committer.rs, consensus/universal_committer.rs), the transaction
-- aggregator of committee.rs, the log and the recovery from it, the core and its threads, the network and the
-- synchronizer; and the orchestrator, which deploys and measures.
pub mod Prelude
pub mod Pevm
pub mod Mysticeti
