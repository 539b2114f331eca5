-- ===== src/Scheduler.antt =====
-- scheduler.h and scheduler.cpp: the scheduler of one thread and the choice between schedulers.
-- `State` has the data, `TimeQueue` the delayed tasks, `Coroutines` the pool, the tables of running
-- and joined coroutines and the switches, `Tasks` the task queues and the calls that fill them,
-- `Routine` the loop that runs the tasks.
pub mod State
pub mod TimeQueue
pub mod Coroutines
pub mod Tasks
pub mod Handoff
pub mod Routine
pub mod Manager
pub mod Process
mod Tests
