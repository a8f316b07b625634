-- ===== src/Runtime.antt =====
-- src/runtime: the admission of requests, the shutdown, and the capacity of selected-target work.
pub mod Admission
pub mod Capacity
