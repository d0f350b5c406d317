-- ===== src/Lib.antt =====
-- uvent: an asynchronous I/O runtime (include/uvent and src of the repository).
--
-- The runtime's workers resume coroutines from a queue. Timers are kept by a hierarchical timer
-- wheel; sockets hand a waiting coroutine between the reader, the poller and the cancel hook by one
-- atomic word; a connection to a host races attempts to its addresses. Coroutines wait for each other by
-- primitives over lists of waiters, and threads hand over elements by rings and tagged words.
--
-- Timer.antt: include/uvent/utils/timer/Timer.h and src/utils/timer/Timer.cpp, the timer and the
-- operations that a wheel queues.
-- Wheel.antt and below: include/uvent/utils/timer/TimerWheel.h and src/utils/timer/TimerWheel.cpp.
-- `TimerWheel` is the record of the members, with the heap of timers; each method is the function
-- of its name. `process_slot` has a round of fuel for each pointer of its bucket and one for the last
-- test; `advance_by` counts the milliseconds left.
-- FastQueue.antt and below: include/uvent/utils/datastructures/queue/FastQueue.h. `Queue` is the
-- class, over a buffer that is a function of the index. `grow_until` has 65 rounds, since a capacity
-- is a power of two below 2^64.
-- Wake.antt and below: the words `rd` and `wr` of include/uvent/net/SocketMetadata.h. Wake/Protocol
-- takes the reader (include/uvent/net/SocketLinux.h and src/net/AwaiterOperations.cpp) and the poller
-- (src/poll/EPoller.cpp) as steps that interleave, one for each atomic operation.
-- Race.antt and below: src/net/HappyEyeballs.cpp. Each critical section is a function of the state;
-- Race/Tasks lets those of the parent, the attempts, the pacer and the resolvers interleave. What the
-- resolver and a connection yield is any input of a step.
-- Buffer.antt and below: include/uvent/utils/buffer/DynamicBuffer.h and
-- src/utils/buffer/DynamicBuffer.cpp, with 65 rounds of doubling as in the queue.
-- Mutex.antt and below: include/uvent/sync/AsyncMutex.h and src/sync/AsyncMutex.cpp, over a wait list
-- that is a list of attempts; each atomic operation or locked section is a step.
-- Barrier.antt and below: include/uvent/sync/AsyncBarrier.h, an arrival as one step.
-- Header.antt and below: include/uvent/utils/sync/RefCountedSession.h and the state word in
-- include/uvent/net/SocketMetadata.h, its operations and the life of a session under them.
-- Tagged.antt and below: include/uvent/utils/sync/TaggedPtr.h, words of a pointer and a tag.
-- Linked.antt and below: include/uvent/sync/WaitList.h, the doubly linked list with its waiters in memory;
-- Linked/Steps refines it to a list of addresses, on which Mutex, Barrier and Waiting stand.
-- Waiting.antt and below: include/uvent/sync/Wait.h with WaitList.h and SyncCommon.h, waiting by
-- `OpWait` for any primitive that fills the interface `Gate`. AsyncSemaphore.h, AsyncEvent.h and
-- AsyncWaitGroup.h, beside it, fill it in Waiting/Semaphore, Waiting/Event and Waiting/Group. So do the
-- receivers and senders of AsyncChannel.h and AsyncUnboundedChannel.h, in Waiting/Channel and
-- Waiting/Unbounded, over queues whose operations are single steps. A bounded channel has two cells or
-- more, since a ring of one cell does not refuse an element when it is full.
-- Spsc.antt and below: `SPSCQueue` of include/uvent/utils/datastructures/queue/ConcurrentQueues.h, the
-- producer and the consumer as steps.
-- Mpmc.antt and below: `MPMCQueue` of the same file, any number of threads; each access of one is a step,
-- and `life` and `value` record, beside the queue, what became of each position and the element brought.
-- The ring has two cells or more, and its positions have not wrapped.
-- Reclaim.antt and below: include/uvent/utils/sync/QSBR.h and src/utils/sync/QSBR.cpp, each load and
-- store of a thread a step, but for those of the first line of `enter`, which are one.
-- The sections of a thread do not nest and it ticks at rest, as the workers do.
-- Hazard.antt and below: include/uvent/utils/sync/HazardPointers.h and
-- src/utils/sync/HazardPointers.cpp, with eight slots in a record, and any cells from which pointers are
-- loaded.
-- Common.antt: machine words, masks, lists, tests and memory as a function.
--
-- Not modelled: system calls and the pollers but for an event's handling, coroutine frames and fibers,
-- since they are the language's or the system's; waits by select, on primitives and on
-- several channels; the segmented, fast and intrusive queues, the concurrent arrays;
-- the orphans of hazard pointers;
-- the timeout's take of a parked coroutine. Memory orders are read as sequential consistency.
pub mod Common
pub mod Timer
pub mod Wheel
pub mod FastQueue
pub mod Wake
pub mod Race
pub mod Buffer
pub mod Mutex
pub mod Barrier
pub mod Header
pub mod Tagged
pub mod Waiting
pub mod Spsc
pub mod Hazard
pub mod Linked
pub mod Mpmc
pub mod Reclaim
