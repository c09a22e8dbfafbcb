-- ===== src/SpscQueue.antt =====
-- src/rempi/rempi_spsc_queue.h: the single-producer single-consumer queue.
pub mod Fifo
pub mod Nodes
pub mod Segments
pub mod Alloc
pub mod Refinement
pub mod Consume
pub mod Calls
