-- ===== src/Compression.antt =====
-- src/rempi/rempi_compression_util.cpp: the codecs of `rempi_compression_util<T>`.
pub mod LinearPrediction
pub mod ZeroOne
