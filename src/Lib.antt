-- ===== src/Lib.antt =====
-- Verification of the Python host side of SmartNIC-offloaded ZeRO-3 training: the parameters of a
-- model are cut into shards, one for each rank; a shard's owner sends it through a collective that
-- the SmartNIC carries out; a coordinator gathers the parameters of a submodule before it runs,
-- prefetches the ones that come next, and releases them afterwards.
--
-- Parts and files:
-- * Coordinator (src/smartnic_offload/partitioned_param_coordinator.py,
--   `PartitionedParameterCoordinator`): the record `Coordinator` holds the object's fields and the
--   parameters and handles that it acts on. Coordinator.antt has the trace, Coordinator/Fetch.antt
--   `fetch_sub_module` with `__all_gather_params` and the handles' `wait`,
--   Coordinator/Release.antt the release. A parameter is its `ds_id`, a submodule its `id` and the
--   list that `iter_params` yields. The answers of `Event.query` and of the comparison between
--   ranks are arguments. `n_available_params` is an integer and may be negative.
-- * Offload (src/smartnic_offload/parameter_offload.py): the hooks that torch runs around a submodule,
--   their counters and stacks, and the calls of the coordinator that they make.
--   Offload/FullCopy.antt has the optional copies of whole parameters on the CPU and the handle
--   `CPUAllGatherCoalescedHandle` of partition_parameters.py that restores them, apart from the
--   coordinator; a copy to the CPU is enqueued, and made at any time after that.
-- * Partition (src/smartnic_offload/partition_parameters.py, `Init`): `_partition_param`, the sizes
--   with their padding, and how gathered buffers become parameters again. Tensors are lists
--   (Tensor.antt); the contents of `torch.empty` are an argument. Partition/Gather.antt has
--   `_allgather_params` with the gather of the same file, and Partition/Gradients.antt
--   `_reduce_scatter_gradients` and `_partition_gradients`.
-- * Accounting (the same file): the totals, phases and records of the gathers, and the `wait` of
--   `AllGatherHandle` that fills them. A time is a number of ticks.
-- * Work (`_ComchHandleWork` of partition_parameters.py, of comch_mpi/host/client.py, and
--   src/smartnic_offload/cuda_stream_wait.py): a collective request. The driver is not part of the
--   repository; every call of it is logged, and its answers are arguments.
-- * FlagPool (src/smartnic_offload/gpu_flag_pool.py): the pool of completion flags.
-- * Stall (src/common/stall_event_tracker.py, `StallEventTracker`): brackets of events around waits;
--   World adds the handles that callers hold. What the events answer is an argument.
-- * Timing (src/common/submodule_timing.py): `Stat`, statistics with a warm-up and a ring of samples,
--   and in Timing/Phases.antt `start` and `end` of the phases that are measured. `Float` holds the
--   operations on floats that the code uses.
-- * Optimizer (src/smartnic_offload/zero_optimizer.py, `ZeroOptimizer3`): the subgroups of the
--   parameters, the flat buffers of their shards, and in Optimizer/Tables.antt the tables of
--   positions.
-- * Coalesced (the same file, `reduce_scatter_coalesced`): the layout of several tensors in one
--   collective, and the outputs of a rank.
-- * Bucket (the same file): the IPG bucket of gradients, from the hook of a parameter to
--   `_flush_pending_rs`, on one rank; Bucket/Output.antt has the output buffer of
--   `__avg_scatter_grads`. What the collective makes of a gradient is an argument.
-- * Adam (the same file, `_adam_worker`, `step_dpu`, `update_new_params`, `start_adam_process`, and
--   the training loop of run_zero.py): the delayed update. `World` holds both processes and the pipe;
--   an iteration takes the order of the worker's rounds and of backward's writes as a list. The wait
--   for the worker takes a number of rounds as fuel; `n + 3` are enough for `n` subgroups.
--   Adam/Step.antt has `step`, the update without delay.
-- * Wrapper (src/smartnic_offload/zero_wrapper_example.py): the counters of micro steps and the steps of
--   the optimizer at the boundaries of gradient accumulation.
-- * Data (src/common/dataset.py and src/common/text_dataset.py): the split of labelled data by class and
--   the chunks of a token stream.
-- * Client (src/smartnic_offload/comch_mpi/host/client.py): the collectives on lists of tensors and,
--   in Client/Flat.antt, on flat tensors, and the asynchronous calls; what the driver leaves in the
--   output is an argument.
-- The coordinator starts gathers of the partitioned parameters, and each gather is a request whose
-- flag, if it has one, comes from the pool. Backward fills the bucket; the parts that the reduction
-- of a bucket leaves on a rank, at the places of the tables, are what Adam reads one iteration later.
--
-- Prelude.antt passes on what the modules share: tests, lists, sets, results and integers. All loops
-- are structural recursions over the lists that the source iterates, and but for the wait of Adam
-- nothing needs fuel. Python's integers are the natural numbers, or the integers where the source can
-- go below zero. A Python set is a list without repetition.
--
-- Not modelled: `defragment`, which nothing calls, the output of statistics, downloads and tokenizers,
-- training scripts, the baseline variant, and the C transport of host and DPU. The coordinator's
-- own state is modelled with the transfer of whole parameters to the CPU off, its default.
pub mod Prelude
pub mod FlagPool
pub mod Work
pub mod Tensor
pub mod Partition
pub mod Coordinator
pub mod Offload
pub mod Stall
pub mod Timing
pub mod Accounting
pub mod Wrapper
pub mod Adam
pub mod Optimizer
pub mod Bucket
pub mod Coalesced
pub mod Client
pub mod Data
