-- ===== src/Kvs/Log/Files.antt =====
-- The laws of the log files, and of a handle that writes to them.
use key_value_distributed_sy.Base.{
  ℕ, zero, suc, ◌+◌, ◌≡◌, refl, false, none, List, [], ◌∷◌, ◌++◌, length, leb, arith,
}
use key_value_distributed_sy.Kvs.Errors.{Decoded, parsed, refused, syntax}
use key_value_distributed_sy.Kvs.Log.{
  Command, Codec, Bytes, LogWriter, write, write_all, to_writer, endless, to_bytes,
}

-- The offsets of commands that stand one behind the other, with a syntax error behind the last.
abbrev pub offsets : Codec → ℕ → List Command → List (Decoded Command × ℕ)
offsets codec start [] = (refused syntax, start) ∷ []
offsets codec start (c ∷ cs) =
    let end = start + length (to_bytes codec c) in (parsed c, end) ∷ offsets codec end cs

abbrev pub bytes_of : Codec → List Command → Bytes
bytes_of codec [] = []
bytes_of codec (c ∷ cs) = to_bytes codec c ++ bytes_of codec cs

-- serde_json: a stream gives commands that were written one behind the other, with their offsets,
-- and a byte 0 behind them, which begins no value, is a syntax error.
abbrev pub IsStreaming : Codec → Type 0
IsStreaming codec =
    (cs : List Command) → codec.stream (endless (bytes_of codec cs)) ≡ offsets codec 0 cs

-- serde_json writes the brace of a command and the quote of its tag as pieces of one byte each.
abbrev pub IsPieced : Codec → Type 0
IsPieced codec =
    (c : Command)
    → (brace : ℕ) × (quote : ℕ) × (pieces : List Bytes) × (codec.pieces c
        ≡ (brace ∷ []) ∷ (quote ∷ []) ∷ pieces)

-- The position of the handle of the source counts calls, and it answers the position where the
-- number of written bytes is asked for. When a value is written in pieces, of which the first two
-- are one byte each, the write panics.
pub to_writer-second_byte :
    (w : LogWriter) (x y : ℕ) (pieces : List Bytes)
    → to_writer w ((x ∷ []) ∷ (y ∷ []) ∷ pieces) ≡ none
unfolding to_writer write_all write
to_writer-second_byte w x y pieces = from w.generation w.index
  where
    from :
        (gen i : ℕ)
        → to_writer (record { generation = gen; index = i }) ((x ∷ []) ∷ (y ∷ []) ∷ pieces) ≡ none
    from gen zero = refl
    from gen (suc i) = let over : leb (suc i + 1) 1 ≡ false = ground arith in rw over refl
