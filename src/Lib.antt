-- ===== src/Lib.antt =====
-- Verification library of tt-lang: a model of the simulator of the language, python/sim, of how work is
-- divided among cores, python/utils, and of the tools that read its performance traces, python/ttl/_src.
--
-- A kernel of tt-lang runs on a grid of cores. On each core a compute thread and data-movement
-- threads work on shared dataflow buffers: the producer reserves slots at the back of a ring, fills
-- them and pushes them; the consumer waits for tiles at the front, reads them and pops them. The
-- simulator gives each side a block, a window into the ring, whose state machine checks that it is
-- used in a legal order.
--
-- The parts, and the files that model them:
--   BlockState.antt, python/sim/blockstate.py: the access states, the expected operations and the
--     transition table.
--   Block.antt, python/sim/dfb.py (class Block): a block as a record and its mark_* calls. Of a call
--     that raises only the kind of the exception is kept. Block/Slots.antt: access to the ring
--     through a block. Block/Store.antt and Operators.antt: store, the operators and matmul on a heap
--     of blocks; Windows.antt, StoreLaws.antt, StoreSteps.antt, Accumulate.antt and
--     Products.antt: what they compute. Block/Legal.antt and Block/Lifecycle.antt: what the state machine guarantees.
--   DfbState.antt, python/sim/dfbstate.py and python/sim/dfb.py (class DFBAPI): the state of one
--     circular buffer and the calls on it. DfbState/Inv.antt: its invariant; Window.antt and
--     Fifo.antt: the ring as a queue; Views.antt and Acquire.antt: what a pointer gives; Calls.antt:
--     histories of calls.
--   DfbApi.antt, python/sim/dfb.py (class DFBAPI): the pool of circular buffers and its identifiers.
--     DfbApi/Pool.antt: the buffers of the pool are independent.
--   DataflowBuffer.antt, python/sim/dfb.py (class DataflowBuffer): wait, reserve, push_block,
--     pop_block and their tests. DataflowBuffer/Sound.antt: the invariant of a buffer with its
--     pending blocks; Wait, Pop, Reserve, Push: each call keeps it and does what a queue does.
--   CoreContext.antt, python/sim/corecontext.py: core, grid_size and flatten_core_index, on a grid and
--     a core's number as arguments. CoreContext/Ranks.antt and Grid.antt: their laws.
--   Pipe.antt, python/sim/pipe.py: the cores that a destination covers. Pipe/Range.antt and
--     Members.antt: the two ways in which the code finds them agree.
--   Tensor.antt, python/sim/tensoraccessor.py and python/sim/ttnnsim.py (class Tensor): reading and
--     writing a tensor by tiles. Tensor/Bounds.antt: accepted keys lie in the tensor.
--   Copy.antt, python/sim/copy.py: copy transactions, over the handlers of Copy/Handlers.antt,
--     python/sim/copyhandlers.py. Copy/Tiles.antt: which tile goes into which slot. Copy/InFlight.antt:
--     whole copies into a reserved block, and refused ones. Copy/Pipes.antt: the handlers between
--     blocks and pipes; Copy/RoundTrip.antt: a block that goes through a pipe.
--   Math.antt, python/sim/math.py: transpose, and binary operations on blocks. Math/Reduce.antt:
--     broadcast and the reductions; Transpose.antt and Reduced.antt: which tiles a result is made of.
--   Program.antt, python/sim/program.py: a program on all cores, over the scheduler. Its fuel is the
--     one of the scheduler. Program/Variables.antt: the variables that a call collects;
--     Contexts.antt: the context of a core; Endings.antt: how a program ends.
--   PipeQueue.antt, python/sim/copyhandlers.py: the messages of a pipe. PipeQueue/Order.antt: the order
--     in which a core receives them; Delivery.antt: when a message leaves the queue.
--   Stats.antt, python/sim/stats.py: the counters of tensors, pipes and dataflow buffers.
--     Stats/Report.antt: the printed report; History.antt: histories of calls; Counts, Sums and Agree:
--     what a call does to the tables; Totals.antt and Names.antt: what a report says.
--   AutoProfile.antt, python/ttl/_src/auto_profile.py: signposts and the flow graph of circular
--     buffers. AutoProfile/Signposts.antt: the names of signposts; Flow.antt: the map of the graph.
--   PerfSummary.antt, python/ttl/_src/perf_summary.py: the summary of a trace. PerfSummary/Counts.antt:
--     its counts and bytes; Timestamps.antt: its range of times; Durations.antt: the durations of
--     kernels, and Pairs.antt, that none is counted twice; Json.antt: the numbers for JSON.
--   Scheduler.antt, python/sim/greenlet_scheduler.py: the threads, the turn of a greenlet, the two
--     scheduling algorithms and the loop of run. Scheduler/Names.antt: no thread is lost; Progress.antt
--     and Ends.antt: what a pass and a run do; Budget.antt: runs end; Runs.antt: whole runs;
--     CoreRanges.antt: the ranges of cores in a deadlock report.
--   CoreSplit.antt, python/sim/ttnnsim.py: split_work_to_cores of the simulated ttnn, on a grid or a
--     set of ranges. CoreSplit/Assigned.antt: the cores and units of its groups.
--   BlockAllocation.antt, python/utils/block_allocation.py: num_cores_to_grid_ranges and
--     split_work_to_cores. BlockAllocation/Cover.antt: the cores of the ranges; Units.antt and
--     Lines.antt: the units that the groups are given. BlockAllocation/Matmul.antt: the blocks of a
--     matrix multiplication; Products.antt, Params.antt and Found.antt: what they fit into.
--   Prelude.antt: tests on numbers, lists, ints, and Python exceptions as values.
--
-- Tensors are a parameter A: the ring stores them and never looks into them. Where tiles are read
-- from a tensor, the functions of torch on it are the parameter Torch. A thread is a number.
-- Where a call waits for a condition, what other threads do meanwhile is a parameter, a function on
-- the state, and the wait times out if the condition is false afterwards. The loops run over ranges
-- of known length; `range` with a step takes the distance from start to stop as fuel, which is enough
-- since each number takes one step of at least 1. The loop of the scheduler takes the number of its
-- passes as fuel; fuel above the turns that its threads may take is enough.
--
-- Not modelled: the texts of error messages, time, the tensor operations of torch and the functions of
-- python/sim/math.py that wrap one of them, reading files, and the compiler behind the language, which
-- builds MLIR.
pub mod PipeQueue
pub mod Program
pub mod Scheduler
pub mod Prelude
pub mod BlockAllocation
pub mod BlockState
pub mod Block
pub mod CoreContext
pub mod Pipe
pub mod DfbApi
pub mod DfbState
pub mod DataflowBuffer
pub mod CoreSplit
pub mod Stats
pub mod PerfSummary
pub mod AutoProfile
pub mod Tensor
pub mod Copy
pub mod Math
