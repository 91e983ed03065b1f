-- ===== src/Server/System/Steps.antt =====
-- Each step of a stream keeps the invariant: one module for each task.
pub mod Reader
pub mod Enqueue
pub mod Inference
pub mod Handler
