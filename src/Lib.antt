-- ===== src/Lib.antt =====
-- candystore is an embedded key-value store. A key is hashed once; the hash selects a shard, a row
-- of the shard's table, and a signature in the row. A shard is one file: a header with the table,
-- and an area that entries are appended to. A cell of the table holds a signature and a word with
-- the two lengths and the offset of its entry. When a file holds too much waste, a background
-- job copies it row by row into a new file while the store goes on.
--
-- Files and the code they model:
--   Hashing       src/hashing.rs: PartedHash. SipHasher24 is the parameter `Hasher`.
--   Stats         src/stats.rs: InternalStats; Stats/Cyclic is CyclicArr, Stats/Summary is Stats.
--   Shard/Disk    the file below a shard: bytes that are read and written at an offset. Offsets
--                 are counted from the end of the header (HEADER_SIZE).
--   Shard/Row     ShardRow and the packed word of src/shard.rs.
--   Shard/Mmap    MmapFile: read_kv and write_kv.
--   Shard/Entry   the closures that get, get_by_hash, read_at, insert and remove run on a row.
--   Shard/Copy    the loops of do_compaction, split and merge.
--   Shard         Shard: its two files, operate_on_row, the operations, begin_compaction,
--                 background_compact, split, merge, get_stats.
--   Router        src/router.rs: consolidate_ranges, which chooses among the files found;
--                 Router/Tree is ShardRouter, its shared_op, call_on_all_shards and insert.
--   Store         src/store.rs: the operations on single keys, over an interface `Root` to the
--                 tree of shards, whose contract (`IsMap`) is that of a map. Store/Rooted and
--                 Lists/Rooted give it the tree.
--                 Store/Raw are the calls on full keys; Store/Big is set_big and get_big;
--                 Store/Iteration is CandyStoreIterator, over Router/Tree.
--   Queue         src/queues.rs: the descriptor, pushing, popping, removing, discarding;
--                 Queue/Walk is QueueIterator, peeking and extend_queue.
--   Lists         src/lists.rs: the descriptor, the chain and the items, insertion and removal;
--                 Lists/Walk is ListIterator, popping, discarding and compaction, Lists/Retain is
--                 retain_in_list.
--   Base          shared helpers: byte strings, the first index that passes a test, results.
--   Tests         runs of the model and uses of the theorems at concrete inputs.
--
-- The state of a shard is its live file, the target of a compaction and the handle of its job;
-- statistics are threaded beside it, as the source shares them by an Arc. An operation is a function
-- from the state to a result and the next state (`Exec`); an error keeps the state as far as it got.
-- The locks of the source make a call atomic on its row, and a compaction takes the lock of one
-- row per round: it is modelled by single rounds (`compact_step`) that stand between the
-- operations, and by the exchange of the files (`finish_compaction`).
--
-- The specification is the map `view` that a shard stands for: the value under a key is that of
-- the file that serves the key's row. `ShardInv` is the invariant: both files are as long as their
-- write offset, each used cell of a row describes an entry below it whose key hashes to the row
-- and the signature, no two cells of a row have the same key, and the target holds nothing in the
-- rows that are still to come. `Runs` (on one file) and `Acts` (on a shard) say that an operation
-- returns without an error, with which result and which state, whatever the statistics are.
-- `Healthy` says that no compaction has failed and that a job runs as long as there is a target.
--
-- A tree of shards stands for the map `tree_view`: the value under a key is that of the shard that
-- the key's selector leads to. `Routes` says that a call on a tree returns without an error and
-- which tree it leaves, `Changes` that this tree is valid and differs under one key only,
-- `Placed` that each key stands in the shard that its selector leads to. The lock
-- of a node makes its split atomic; the insertion is the whole loop, on fuel for its rounds.
-- `CanInsert` counts the rounds that an insertion takes. There may be no such number in the code
-- either: a shard whose span is one selector splits into an empty span and itself.
--
-- A queue is a descriptor under one key and an item under a key for each index. `Cells` is what
-- the store holds under these keys, `QueueInv` says that the descriptor agrees with the items
-- (the range is ordered, no item lies outside, and as many are counted as there are), and
-- `contents` are the items of the range, in their order, without the holes. `Does` says that a
-- call returns without an error, from every valid state of the store that holds these cells, and
-- that every other key reads as before. The lock of a queue makes its calls atomic.
--
-- A list is a descriptor, a chain that leads from an index to the hash of an item's key, and an item
-- under its key, whose value ends with its index. `ListCells` is what the store holds of it,
-- `ListInv` says that the descriptor agrees with the chain, as that of a queue does with its items,
-- and that the chain and the items lead to each other; `members` are the keys of the items in their
-- order. The item of an index is found by get_by_hash, which the list asks of the root (`HashRoot`,
-- with the contract `IsHashMap`). `Holds` says of a part of the store what `Does` says of a queue.
--
-- The store's operations, queues and lists stand over the contract of `Root`. A `View` says which
-- states are valid with room for n insertions (`Valid n`) and which map a state stands for. A
-- lookup and a removal keep the room, an insertion takes one of it; `Holds` and `Does` carry how
-- many insertions a call makes at most. Of the tree (Store/Rooted, Lists/Rooted), `HasRoom n` says
-- that the next n insertions, whatever they are and whatever is removed between them, take no more
-- rounds than there is fuel. The tree has room for no further insertion of a key once its row is
-- full in a shard whose span is one selector.
--
-- `Reach` pairs a shard with the map that a client has in mind, after any sequence of operations,
-- rounds of a compaction and exchanges.
--
-- Bounds and fuel: an entry's lengths fit 16 bits, as the limits of the store make them, and its
-- offset fits 32 bits (`Room`); a round of a compaction asks that all of its row fits. The
-- insertion into a tree takes fuel for each level and each split. The loops over a queue
-- or a list run on one round more than its range has indices. The search of a row runs on row_width + 1 rounds of
-- fuel, one more than the row has cells; the theorems on it say that it returns, so the fuel is
-- enough.
--
-- Not modelled: reading and repairing a directory (Shard::open), renaming and removing files,
-- mapping and flushing, the thread pool, the optional features flush_aggregation and
-- whitebox_testing, and errors of the file system other than a read past the end; treeify,
-- merging and clearing in src/router.rs, merging in src/store.rs, and the typed wrappers;
-- size_hint, span_len and holes of src/queues.rs, and size_hint of src/lists.rs. The ratio of holes
-- that a list's compaction asks for is a floating-point number: its test is given. Big
-- items are queues of their chunks.
pub mod Base
pub mod Hashing
pub mod Stats
pub mod Shard
pub mod Router
pub mod Store
pub mod Queue
pub mod Lists
pub mod Tests
