-- ===== src/Task.antt =====
-- What the server runs later: the events of src/scheduler.cpp.
pub mod Scheduler
pub mod Dispatcher
mod Tests
