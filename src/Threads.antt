-- ===== src/Threads.antt =====
-- thread_local.h, thread_mutex.h, thread_condition.h and thread_mutex_lock.h: the values that belong
-- to a thread, and the lock of a task queue. What pthreads keeps and decides is given.
pub mod Local
pub mod Lock
pub mod Mutex
mod Tests
