-- ===== src/Lib.antt =====
-- micrOSAL: the lock-free containers, the emulated kernel objects, and what they stand on.
--
-- micrOSAL gives one API to many real-time kernels. Where a kernel lacks an object, src/common holds
-- an emulation over the kernel's mutexes, semaphores and condition variables; include/osal holds the
-- containers and the result type that need no kernel. This library models those parts.
--
-- Which file models which part:
--   Common        lists with native indices, Boolean tests, std::size_t.
--   Ring          indices that go round and copies in two chunks, which all rings share; Ring/Copy and
--                 Ring/Window say what they read and write.
--   Fifo          the bounded queue that the containers promise.
--   RingBuffer    include/osal/ring_buffer.hpp, call after call; RingBuffer/Spsc has try_push and try_pop
--                 on two threads, one step for each access to shared memory.
--   ByteRing      the ring inside the stream buffer of src/common/emulated_stream_buffer.inl.
--   StreamBuffer  that file's calls. Blocking ones run over a list of rounds; StreamBuffer/Pool has
--                 creation and destruction.
--   MemoryPool    src/common/emulated_memory_pool.inl. A word of the bitmap is the list of its 32 bits;
--                 addresses are numbers. MemoryPool/Pool has creation and destruction.
--   MessageBuffer src/common/emulated_message_buffer.inl, over the same ByteRing, whose functions are
--                 that file's too (sb_read is emu_mb_read, and so on); MessageBuffer/Frame has headers
--                 and messages, MessageBuffer/Blocking the calls that wait, MessageBuffer/Pool creation
--                 and destruction.
--   RwLock        src/common/emulated_rwlock.inl; RwLock/Clients has threads that interleave,
--                 RwLock/Pool creation and destruction.
--   WorkQueue     src/common/emulated_work_queue.inl; WorkQueue/Worker has wq_worker_entry as steps beside
--                 the threads that submit, cancel and stop, WorkQueue/Pool creation and destruction.
--   Barrier       src/common/emulated_barrier.inl; Barrier/Wait has one call, Barrier/Rounds any number
--                 of threads at one barrier.
--   Condvar       src/common/emulated_condvar.inl; a waiter slot also holds where its thread is.
--                 Condvar/Seats has the steps of the threads, Condvar/Notify what a notification does.
--   EventFlags    src/common/emulated_event_flags.inl; a mask is the list of its bits. EventFlags/Wake has
--                 the steps of the threads, with interrupts between the accesses of the thread that has
--                 the guard; EventFlags/Wait has emu_ef_wait as one call.
--   Clock         include/osal/clock.hpp (ms_to_ticks, ticks_to_ms) and
--                 src/common/backend_timeout_adapter.hpp.
--   BmQueue       the queue of src/bare_metal/bare_metal_backend.cpp, item by item; BmQueue/Spec has the
--                 bounded queue that it implements.
--   BmTimer       the software timers of the same file.
--   DelayableWork include/osal/delayable_work.hpp. DelayableWork/Steps has schedule, reschedule, cancel,
--                 on_timer and run_work, one access of the state word or of a half of a time in each
--                 step; DelayableWork/Noted has the errors that on_timer notes;
--                 DelayableWork/Owner who has the callback in hand, DelayableWork/Due the times,
--                 DelayableWork/Once the counts, and DelayableWork/Runs what follows for every run.
--   ThreadLocal   include/osal/thread_local_data.hpp: the registry of keys, and the storage of threads and
--                 of bare-metal tasks, which differ in how a row of the storage is chosen.
--   TopicRegistry include/osal/bus/topic_registry.hpp; TopicRegistry/Dispatch has threads between the two
--                 locks of a dispatch.
--   StopToken     include/osal/stop_token.hpp: a source with its callbacks; the mutex and the condition
--                 variable do not fail.
--   CondWait      the loop of the calls that wait on a condition variable (read-write lock, work queue
--                 and barrier), over a list of waits.
--   Creation      what the creations of work queues, barriers, condition variables and event
--                 flags share.
--   Wait          the loop of the message buffer calls that block, tried round after round.
--   Slots         the static pools' flags (emu_sb_acquire, emu_sb_release and their like).
--   Semaphore     the counting semaphore of src/bare_metal/bare_metal_backend.cpp.
--   Error, Tick   include/osal/error.hpp, and the ticks of include/osal/types.hpp.
--
-- How the source corresponds: a function that changes an object returns the new object beside its
-- result; a null or uninitialised handle is `none`; an out parameter is a part of the result. Loads
-- and stores of atomics are reads and writes of fields, in program order; where threads interleave,
-- memory is sequentially consistent. std::size_t and the tick type have 32 bits and wrap; a storage
-- is at most 2 ^ 31 - 1 bytes, the largest object of such a target.
--
-- A blocked call takes a list of rounds, each with the clock's reading and what the other threads do
-- before the semaphore's take comes back. It gives `none` where the rounds end while it is blocked,
-- and the theorems on returning say when that cannot be. The objects of CondWait take the condition
-- variable's answers as a part of each wait, so they hold over any condition variable; Condvar shows
-- what the emulated one gives. Sequence numbers of a work queue are a std::size_t, and the theorems
-- that compare them ask for fewer steps than it can count. What a backend answers to the creation of
-- a semaphore or a mutex is an argument. A call on a memory pool is one step, and so is what a call
-- on a read-write lock, a work queue or a barrier does between two waits, under its mutex.
--
-- The generation of a delayable work item has 29 bits, and that of a key 32; the theorems that compare
-- generations ask for fewer armings, or calls, than they can count. The work item's clock stays below
-- 2 ^ 64 milliseconds. Its timer may call back at any time; a start of the timer that fails is taken to
-- come before any callback of that arming. The two stores of a dispatch error are one step, and so is
-- what follows a stop of the timer: the store of the state and the reset of the error.
--
-- Among the steps of event flags, the stores into a slot that is not marked active yet are one step, as
-- interrupts read none of them; so is the loop of a wake over the slots, and an interrupt's call. A
-- thread at a read-write lock that has it for reading does not lock it again. No tick comes while the
-- callback of a bare-metal timer runs.
--
-- Not modelled: the deadlines over std::chrono, wait sets, the counters of diagnostics, the kernels' own
-- backends, threads, the timers of the other backends, the C API's wrappers, the bus but for its
-- registry of topics, failures of the primitives under a stop source, and weak memory orders.
pub mod Common
pub mod Ring
pub mod Fifo
pub mod RingBuffer
pub mod ByteRing
pub mod StreamBuffer
pub mod MemoryPool
pub mod MessageBuffer
pub mod RwLock
pub mod Error
pub mod Tick
pub mod Semaphore
pub mod Slots
pub mod Wait
pub mod CondWait
pub mod Creation
pub mod Clock
pub mod Barrier
pub mod Condvar
pub mod EventFlags
pub mod BmQueue
pub mod BmTimer
pub mod DelayableWork
pub mod ThreadLocal
pub mod TopicRegistry
pub mod StopToken
pub mod WorkQueue
