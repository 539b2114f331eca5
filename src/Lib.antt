-- ===== src/Lib.antt =====
-- coroxx: coroutines for C++ with an own stack or a shared one (libcoro.h, libcoro.cpp), a scheduler
-- that runs tasks in them (scheduler.h, scheduler.cpp), and the wrappers of pthreads that it uses.
--
-- The parts and their files:
--   CoroBase       coro_base.h: the options and the data context of a coroutine.
--   LibCoro        libcoro.h and libcoro.cpp. LibCoro.Objects has `CoroStack`, `LibCoroCoroutine` and
--                  `CoroEnv` (with the constructors, `ResetContext` and `NewShareStack`),
--                  LibCoro.Stacks has `GetCoroStack`, LibCoro.Buffer has `MarkStackResumePoint`,
--                  `SaveStackBuffer` and `ResumeStackBuffer`, LibCoro.Switch has `Resume` (`resume` up to
--                  the transfer, `switch_to` until a coroutine runs), `swapCoroFunc`, `Yield`, `Wait`
--                  and the destructor. LibCoro.Layout states which coroutine has its bytes where,
--                  LibCoro.Safety what holds between two switches. Its children follow `Resume` part by
--                  part; Begin is on the operations without a switch, Delete on the destructor, Turns on
--                  `Yield` and `Wait`, Flags and Waits on the mark of a coroutine that waits, and History on sequences of operations. Stacks.Rounds is on the
--                  turns of the shared stacks.
--   Threads        thread_local.h (Threads.Local), the waits of thread_mutex_lock.h (Threads.Lock), and its
--                  other methods with thread_mutex.h and thread_condition.h (Threads.Mutex).
--   Scheduler      scheduler.h and scheduler.cpp. State has the data, TimeQueue the delayed tasks,
--                  Coroutines the pool, `Join` and `CoroDone`, Tasks `PushCoroTask`, `StartCoro`,
--                  `StartCoroAfter`, `CoroSleep` and the bodies of coroutines, Routine `CheckTimeQueue`,
--                  `Routine`, `Run` and `Start`, Manager the class `SchedulerManager`. Handoff has the
--                  steps of `PushCoroTask` and `Routine` on two sides of `coro_queue_mutex`, and Process
--                  all schedulers with the functions of scheduler.h that call one of them.
--   LibCo          libco.h and libco.cpp, the backend on another library.
--   Base           the names that all files share, options, lists, signed numbers, tables and memory.
--
-- How they interact: the scheduler keeps coroutines by their ids and switches between them by the
-- calls of LibCoro.Switch on the `CoroEnv` of its thread, which is the field `env` of a `World`. The
-- loop of `Routine` waits on the lock of Threads.Lock for the time that `CheckTimeQueue` gave, or for
-- 10 milliseconds where that is not from 1 to 100.
--
-- State and faults: a pointer to an object is its number in a table, a null pointer is `none`. An
-- operation that may follow a dangling pointer returns an `Option`, where `none` is the fault. The
-- memory is a function from addresses to bytes, and the copies of the code read and write it. Sizes
-- and addresses are natural numbers; the subtraction of pointers in `MarkStackResumePoint` and the
-- counts of type `uint32_t` are cut to their widths.
--
-- What is given: `CallSite` has what coro.c and the machine supply at a switch, the address of a local
-- variable of the coroutine that runs, the stack that `coro_stack_alloc` gives, and the bytes that
-- `coro_create` leaves at the upper end of a stack. `SiteFits` says what is expected of them: the
-- variable is on the coroutine's own stack, and stacks do not overlap. The functions that coroutines
-- run, what other coroutines and threads do in between, the clock, pthreads and libco are parameters.
--
-- Loops: the loops over lists are structural. `CheckTimeQueue` and `Routine` run as long as tasks
-- come, and take fuel. Each task has a weight, and the call of a task that exists adds tasks of less
-- weight than its own; one unit for a deadline and the weights of the tasks that wait are then enough
-- fuel. `Invoke` deletes its task, so the calls are bound by this only for tasks that exist; a count of
-- how often each waits (Routine.Census) shows that those of the queues do.
--
-- Not modelled: coro.c and coro.h, a copy of another library; what runs in a new thread before its
-- scheduler's first switch; the accessors of the raw pthreads objects and the constructor that copies
-- them; test1.cpp and test2.cpp, which print.
pub mod Base
pub mod CoroBase
pub mod LibCoro
pub mod Threads
pub mod LibCo
pub mod Scheduler
