-- ===== src/Kvs/Load/Ends.antt =====
-- Where reading a log file ends.
use key_value_distributed_sy.Base.{ℕ, ◌+◌, ◌≡◌, refl, List, [], ◌∷◌, length, false, ◌==◌, arith}
use key_value_distributed_sy.Kvs.Errors.{err, malformed_data}
use key_value_distributed_sy.Kvs.Log.{Command, Codec, Bytes, endless, input, to_bytes, read}
use key_value_distributed_sy.Kvs.Log.Files.{offsets, bytes_of, IsStreaming}
use key_value_distributed_sy.Kvs.Load.{Index, load_command, load_stream, load_log_file}

-- The answer of a read is never the one for the end.
input-endless : (file : Bytes) → input file ≡ endless file
unfolding input read
input-endless file = let never : (length file + 1 == 0) ≡ false = ground arith in rw never refl

module _ (codec : Codec) (generation : ℕ) where
  load_stream-offsets :
      (cs : List Command) (start : ℕ) (at : Index × ℕ)
      → load_stream generation start (offsets codec start cs) at ≡ err malformed_data
  unfolding load_stream
  load_stream-offsets [] start at = refl
  load_stream-offsets (c ∷ cs) start at =
      let end = start + length (to_bytes codec c) in
      load_stream-offsets cs end (load_command generation c start end at)

  -- No log file can be loaded, whichever commands were written to it, none of them included: its end
  -- is never seen, and the load fails with malformed data behind the last command. It holds when
  -- serde_json streams the commands and refuses a byte 0 behind them.
  pub load_log_file-ends :
      (cs : List Command) (at : Index × ℕ)
      → IsStreaming codec
      → load_log_file codec generation (bytes_of codec cs) at ≡ err malformed_data
  unfolding load_log_file
  load_log_file-ends cs at streams =
      rw (input-endless (bytes_of codec cs), streams cs) (load_stream-offsets cs 0 at)
