-- ===== src/Lib.antt =====
-- ReMPI records the order in which an MPI program's receives and tests complete, and replays it; ReOMP
-- does the same for the threads of an OpenMP program.
--
-- How the parts meet, and which file models which:
--
-- - Event (src/rempi/rempi_event.h, rempi_event.cpp): one receive or test, as eight ints. Equal
--   tests in a row are one event with a count; `increment` is `operator ++`, `same_event` is
--   `operator ==`. Event/Counting says what a counted event stands for.
-- - SpscQueue (rempi_spsc_queue.h): Nodes is the code, linked nodes that the producer uses again
--   once the consumer has left them behind. Fifo is what clients see of it, a list of values and two
--   counters; Segments, Alloc, Consume, Refinement and Calls relate the two.
-- - EventList (rempi_event_list.h, rempi_event_list.cpp): the application pushes events and the I/O
--   thread pops them; on replay the I/O thread enqueues events for each test id, and the application
--   dequeues one occurrence a call. Record treats recording, Replay replaying.
-- - Encoder and Encoder/Basic (rempi_encoder.h, rempi_encoder.cpp, rempi_encoder_basic.cpp): chunks
--   of events, taken from the list, written to the record file as a size and the ints of the events,
--   and read back. The file is its bytes.
-- - IoThread (rempi_io_thread.cpp): `write_round` is one round of the loop of `write_record` up to
--   its test, `is_written`, and `read_record_lite` the reading loop. Write has the interleavings of
--   the application and the writer, Rounds and Recorded what they leave in the file, Finish the end
--   of the loop, Read and Replay the way back.
-- - Clock (rempi_clock.cpp): a process's logical clock; Clock/Causality puts processes together.
-- - Compression (rempi_compression_util.cpp): LinearPrediction and ZeroOne, the two directions of
--   each codec.
-- - ClockDelta (rempi_clock_delta_compression.cpp): nodes, chains and the diff. Paths and Leaves say
--   what a new node leaves, Restore that the diff gives the observed order, Shortest that no diff
--   keeps more; Compress is the loop over the events, and Binary the ids and delays that are left of
--   a diff.
-- - Cdc (rempi_encoder_cdc.cpp): the encoder that records by clocks. Indices is the permutation that
--   the decoder makes of ids and delays, Matched the way from the bytes of the matched events to it.
--   Table is the chunk that `add` fills and `format` sorts, Chunk its bytes, by `encode` and
--   `decode`. Extract is how a chunk takes events from the list, and File the chunks in the record
--   file.
-- - Gate (src/reomp/reomp_gate_clock.cpp): Ticket is the clock gate, Concurrent the gate that lets
--   equal accesses share a ticket, Record the interleavings of threads that record, and Replay those
--   of threads that replay what was recorded.
-- - Request (rempi_request_mg.cpp, and the ids of communicators in rempi_mpi_init.cpp): the tables
--   of posted requests. MsgId says which messages have the same id; Assign and Select give calls and
--   messages their matching sets, Select/Consistent when replaying, Select/Agreed and Select/Mapped
--   when recording, and Select/Refused what it refuses; Register and Info are what the recorders
--   call. Merge is the table that a record ends with, Merge/Footer its bytes (rempi_encoder_cdc.cpp,
--   write_footer and read_footer), and Replay takes the sets from the recording to the replaying
--   process.
-- - Common: lists over native numbers, maps, results, and little-endian bytes. Tests: concrete runs.
--
-- Results of calls are `Run`: `ok`, `spin` where the code waits in a loop until another thread acts
-- (the call has changed nothing that others see, and is made again), and `abort` where REMPI_ERR or
-- MUTIL_ERR ends the process or where the code's behaviour is undefined. Two exceptions: overflow of
-- ints, where comments and theorems state the range instead, and the bit that `update_start_it` reads
-- behind the matched bits. That is a parameter: the theorems take it as unset, which excludes numbers
-- of events where the bit lies outside the storage, such as multiples of 64.
--
-- Bounds: ints are 32-bit patterns and sizes and clocks 64-bit words, with their wrap-around. Fuel:
-- the extraction loop has as much as the queue has events, and each turn takes one;
-- `read_record_lite` and `read_chunks` need one round for each chunk of the file and one more; `drain`,
-- the application's calls, one call for each occurrence and one more.
--
-- Not modelled: threads meet as sequences of operations (a round of the writer up to its test is one
-- step, its test another, each part of `push_all` one, and so is a call of the queue), so the fences
-- and the mutexes have no counterpart. What the application does within a round is taken as done
-- before it, as the writer takes events until the queue is empty and only then asks whether the list
-- is closed, or behind it, where the round does not look at the list any more. An event's inputs do
-- not change while it is queued, so a receive is pushed once its source is known; opening and closing
-- files, timing, sleeping and memory release are left out; zlib is a parameter, and what is said of
-- the file holds for uncompressed records. What the request management takes from elsewhere is an
-- argument: the hash of the application's call stack, MPI_REQUEST_NULL, and the values that the
-- callers' variables hold. The order in which the CDC decoder hands out arriving messages is left out:
-- it waits on clocks that other processes publish in one-sided windows. So are the REP encoder, which
-- shares it, the recorders and wrappers around MPI, and of ReOMP the thread-id gate, the locks of data
-- races, and the instrumentation.
pub mod Cdc
pub mod Clock
pub mod ClockDelta
pub mod Common
pub mod Compression
pub mod Encoder
pub mod Event
pub mod EventList
pub mod Gate
pub mod IoThread
pub mod Request
pub mod SpscQueue
pub mod Tests
