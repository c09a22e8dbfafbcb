-- ===== src/IoThread.antt =====
-- src/rempi/rempi_io_thread.cpp: the thread that moves events between the event list and the record
-- file, with the basic encoder. Opening and closing the file, timing and `usleep` are not modelled.
pub mod Extract
pub mod Write
pub mod Rounds
pub mod Recorded
pub mod Read
pub mod Replay
pub mod Finish
use re_mpi.Common.{
  ℕ, zero, suc, Bool, true, false, ◌&&◌, Option, none, some, ◌==◌, if◌then◌else◌, Run, ok, spin,
  ◌>>=◌,
}
use re_mpi.EventList.{EventList, size, close_push}
use re_mpi.Encoder.{InputFormat, create_encoder_input_format}
use re_mpi.Encoder.Basic.{
  Config, Encoder, extract_encoder_input_format_chunk, encode, write_record_file, read_record_file,
  insert_encoder_input_format_chunk,
}

-- The variables of `write_record`: the chunk being filled, and the encoder with its file.
pub record Writer : Type 0 where
  pub input_format : InputFormat
  pub encoder : Encoder

-- The test that ends the loop, which then deletes the chunk that is being filled.
unfoldable pub is_written : EventList → Bool
unfolding size
is_written l = l.is_push_closed && size l == 0

module _ (cfg : Config) where
  unfoldable pub store_chunk : Bool → InputFormat → Encoder → Run Writer
  store_chunk true f enc = do
    f' ← encode cfg f
    enc' ← write_record_file f' enc
    ok (record { input_format = create_encoder_input_format; encoder = enc' })
  store_chunk false f enc = ok (record { input_format = f; encoder = enc })

  -- A round of the loop of `write_record` up to its test, which is `is_written`: the application can
  -- act in between, and close the list after the round has found it open.
  unfoldable pub write_round : Writer → EventList → Run (Writer × EventList)
  unfolding store_chunk
  write_round w l =
      extract_encoder_input_format_chunk cfg l w.input_format >>= λ (l', f, is_extracted).
      store_chunk is_extracted f w.encoder >>= λ w'. ok (w', l')

  -- `read_record_lite`, on fuel: a round reads one record. Without fuel the loop goes on: `spin`.
  unfoldable pub read_record_lite : ℕ → Encoder → EventList → Run EventList
  unfolding close_push
  read_record_lite zero enc replaying = spin
  read_record_lite (suc fuel) enc replaying =
      read_record_file cfg create_encoder_input_format enc >>= elim [
        | none ↦ ok (close_push replaying)
        | some (f, enc') ↦
            insert_encoder_input_format_chunk f replaying >>= read_record_lite fuel enc'
      ]
