-- ===== src/Lib.antt =====
-- LAIK distributes index spaces over the processes of a group. A partitioning assigns ranges of a
-- space to tasks; its range list is collected by a partitioner, frozen, and then queried. A
-- transition between two partitionings is the list of operations (local copies, initializations,
-- messages, reductions) by which one process takes part in the change from one to the other. This
-- library models that core: ranges, range lists, partitioners, the calculation of transitions, and the
-- layouts by which the elements of a message are packed from memory and unpacked.
--
-- The files and what they model:
--
--   Space: src/space.c up to laik_space_getdimensions, with the types of include/laik/space.h.
--     laik_range_intersect is range_intersect, laik_range_isEqual is range_is_equal, and so on: a
--     function keeps its name without the prefix laik_. Space/Points says which indexes a range holds;
--     the other files below Space relate the operations to these index sets.
--   RangeList: src/rangelist.c, the list while it is collected. RangeList/Cover is
--     laik_rangelist_coversSpace, RangeList/Freeze is laik_rangelist_freeze with sortRanges,
--     mergeSortedRanges, updateOffsets and updateOffsetsSI, and laik_rangelist_migrate,
--     RangeList/Queries holds the queries on a frozen list and laik_updateMapOffsets.
--   Transition: the second half of src/space.c. Transition/Groups holds the task groups
--     (addTask, removeTask, isInTaskGroup, getTaskGroup, getTaskGroupSingle), Transition/Exchange the
--     loops of do_calc_transition for spaces with several dimensions, Transition/Sweep is
--     calcAddReductions for one dimension, and Transition/Calc is do_calc_transition with the queries
--     laik_trans_groupCount, laik_trans_taskInGroup and laik_trans_isInGroup.
--   Partitioning: the group and partitioning structures, with the fields that the functions read.
--   Partitioner: src/partitioner.c up to the bisection partitioner. laik_run_partitioner is
--     run_partitioner; a receiver is its filter and its list; runXPartitioner is run_x.
--     Partitioner/Appends says what a partitioner has appended to its list, Partitioner/Halo holds the
--     halo partitioners, Partitioner/Bisection the recursion of doBisection, Partitioner/Run a whole run.
--   Layout: src/layout_lex.c, with the entries, sections and offsets of a lexicographical layout, and
--     below it src/layout.c: Layout/Walk is next_lex with the rank of an index in a range, by which
--     offsets are described, Layout/Generic holds laik_layout_copy_gen, laik_layout_pack_gen and
--     laik_layout_unpack_gen for any offset function, and init_layout, the choice of pack and unpack
--     by laik_init_layout.
--   Kvs: src/kvs.c, with the structures of include/laik/core-internal.h. Kvs/Journal holds the change
--     journal with laik_kvs_changes_add, _sort and _merge, Kvs/Store the operations on a store. The
--     other files below Kvs relate them to lists of changes and to maps from keys to values: Kvs/Search
--     and Kvs/Lookup for laik_kvs_entry, Kvs/Invariant, Kvs/Updates and Kvs/Passes for single calls,
--     Kvs/Refine for sequences of calls, Kvs/Encode, Kvs/Add, Kvs/Decode and Kvs/Roundtrip for adding
--     and sorting, Kvs/Append, Kvs/Union, Kvs/Merge and Kvs/Carry for merging, Kvs/Apply and
--     Kvs/Ending for the synchronization.
--   Mpi: laik_mpi_exec_packAndSend and laik_mpi_exec_recvAndUnpack of src/backend-mpi.c, which send and
--     receive a range in messages of at most PACKBUFSIZE bytes. The layout's pointers to pack and
--     unpack are an argument, the record LayoutFunctions. MPI is a parameter, the record Mpi: it delivers the messages between two processes in their order. Mpi/Sync is laik_mpi_sync, by which
--     laik_kvs_sync brings the stores of all tasks together; its messages are arguments and results.
--     Mpi/Sync/Collect and Received are about the merging on task 0, Tasks and Local about the changes that
--     a task applies and makes, Whole and World about all tasks.
--   Prelude: lists, Boolean tests, integers, permutations, qsort, and the outcome of a C function.
--
-- How the code is translated. A function that can fail an assert, panic or exit returns an Outcome,
-- which is done with a value, or aborted. Global buffers and the static result of
-- laik_range_intersect are arguments: buf is what the static range holds before the call, junk the
-- content of a local range variable that the code leaves uninitialized. Arrays are lists; the growth
-- of an array is visible only in capacity. A null pointer and the number -1 for no task are none.
-- int64_t values are integers, since signed overflow is undefined in C; the unsigned results of
-- laik_range_size wrap at 2^64, and the conversion to int in rb_cmp is written out. The ranges of a
-- list are sorted by trgen_cmp, with differences of int tags that do not overflow; trgen_cmp_int is the
-- comparison with wrap-around, the same for tags that are not negative. qsort of the C
-- library is a parameter, the record QSort: it permutes its input, and sorts it where the comparison
-- is total and transitive. Insertion sort shows that this can be met.
-- In the key-value store a C string is the list of its bytes without the zero, an entry of the journal
-- holds copies of the key and the value that it points to, and behind stands for the bytes that follow
-- a value in memory, which memcmp can read. Sizes of the journal are below 2^31.
--
-- Bounds: most loops are structural recursion on lists or on the number of dimensions or tasks.
-- doBisection has fuel, one more than the tasks of the group, and each call has fewer tasks; the loops
-- of packing and unpacking have one more than the bytes of the buffer, and each round takes an element;
-- that of copying has one more than the indexes of the range; those of sending and receiving have as
-- many, since each message carries an element. The buffer of 100 ranges of laik_rangelist_coversSpace
-- is kept, with the exit at its end; RangeList/Cover/Room bounds what a round of it can need: in one
-- dimension each range adds one piece at most, in more it may multiply the pieces, so that the buffer
-- is sure to be enough for 49 ranges in one dimension, 3 in two and 2 in three. The binary search of laik_kvs_entry has one round more than there are sorted
-- entries, and each round leaves fewer of them.
--
-- Not modelled: memory exhaustion, logging, the layout of the transition object in memory, creation,
-- serialization and synchronization of spaces, src/partitioning.c (its range lists are fields of the
-- model), the block, grid, incremental and reassign partitioners, the packing that is specialized to
-- the lexicographical layout, actions, data containers, the callbacks of the
-- key-value store, and the rest of the backends.
pub mod Prelude
pub mod Space
pub mod RangeList
pub mod Partitioning
pub mod Partitioner
pub mod Layout
pub mod Kvs
pub mod Mpi
pub mod Transition
