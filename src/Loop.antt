-- ===== src/Loop.antt =====
-- The event loop of src/batch/include/common: handle.h, handle.cc, event.h, selector.h and io.h.
-- `Defs` holds the objects in memory and the selector, `Timers` the priority queue, `Io` the class
-- IO; the other modules prove.
pub mod Defs
pub mod Timers
pub mod Selector
pub mod Io
