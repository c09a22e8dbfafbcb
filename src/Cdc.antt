-- ===== src/Cdc.antt =====
-- src/rempi/rempi_encoder_cdc.cpp: the encoder that records the order of receives by their clocks.
pub mod Indices
pub mod Matched
pub mod Table
pub mod Chunk
pub mod Extract
pub mod File
