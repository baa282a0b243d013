-- ===== src/Kvs/Sample.antt =====
-- A codec that has the laws which the store relies on: a command with its strings behind their
-- lengths.
use key_value_distributed_sy.Base.{
  ++-assoc, ++-[], ℕ, zero, suc, ◌+◌, ◌-◌, ◌<◌, ◌≡◌, refl, ap, ◌∙◌, Option, none, some, List, [],
  ◌∷◌, ◌++◌, length, length-append, arith,
}
use key_value_distributed_sy.Base.Text.{Text}
use key_value_distributed_sy.Kvs.Errors.{
  Result, ok, err, malformed_data, Decoded, parsed, refused, syntax,
}
use key_value_distributed_sy.Kvs.Log.{
  Command, set, get, remove, Codec, Bytes, Input, ending, endless, join, take, drop,
}
use key_value_distributed_sy.Kvs.Log.Files.{offsets, bytes_of, IsStreaming, IsPieced}

abbrev to_bytes : Command → Bytes
to_bytes (set k v) = 1 ∷ length k ∷ k ++ (length v ∷ v)
to_bytes (get k) = 2 ∷ length k ∷ k
to_bytes (remove k) = 3 ∷ length k ∷ k

-- The value of a `set`, behind its key.
abbrev value_of : Text → Bytes → Option (Command × Bytes)
value_of k [] = none
value_of k (n ∷ bytes) = some (set k (take n bytes), drop n bytes)

abbrev command_of : ℕ → ℕ → Bytes → Option (Command × Bytes)
command_of zero n bytes = none
command_of (suc zero) n bytes = value_of (take n bytes) (drop n bytes)
command_of (suc (suc zero)) n bytes = some (get (take n bytes), drop n bytes)
command_of (suc (suc (suc zero))) n bytes = some (remove (take n bytes), drop n bytes)
command_of (suc (suc (suc (suc _)))) n bytes = none

-- The command at the start of some bytes, and the bytes behind it.
abbrev next : Bytes → Option (Command × Bytes)
next [] = none
next (tag ∷ []) = none
next (tag ∷ n ∷ bytes) = command_of tag n bytes

abbrev first : Option (Command × Bytes) → Option Command
first none = none
first (some (c, rest)) = some c

-- The command at the start of some bytes.
abbrev pub parse : Bytes → Option Command
parse bytes = first (next bytes)

-- `behind` is what is found where the bytes end.
abbrev stream_from : (ℕ → List (Decoded Command × ℕ)) → ℕ → ℕ → Bytes → List (Decoded Command × ℕ)
stream_from behind zero start bytes = []
stream_from behind (suc fuel) start [] = behind start
stream_from behind (suc fuel) start (x ∷ bytes) = elim (next (x ∷ bytes)) [
  | none ↦ (refused syntax, start) ∷ []
  | some p ↦
      let end : ℕ = start + (length (x ∷ bytes) - length p.1) in
      (parsed p.0, end) ∷ stream_from behind fuel end p.1
]

abbrev syntax_error : ℕ → List (Decoded Command × ℕ)
syntax_error start = (refused syntax, start) ∷ []

abbrev stream_of : Input → List (Decoded Command × ℕ)
stream_of (ending bytes) = stream_from (λ start. []) (length bytes + 1) 0 bytes
stream_of (endless bytes) = stream_from syntax_error (length bytes + 1) 0 bytes

-- The tag of a command and the length of its key are pieces of their own.
abbrev pieces : Command → List Bytes
pieces (set k v) = (1 ∷ []) ∷ (length k ∷ []) ∷ (k ++ (length v ∷ v)) ∷ []
pieces (get k) = (2 ∷ []) ∷ (length k ∷ []) ∷ k ∷ []
pieces (remove k) = (3 ∷ []) ∷ (length k ∷ []) ∷ k ∷ []

abbrev parse_limited : Option Command → Result Command
parse_limited none = err malformed_data
parse_limited (some c) = ok c

abbrev pub sample : Codec
sample = record {
  pieces = pieces;
  from_reader = λ reader len bytes. parse_limited (parse (take len bytes));
  stream = stream_of;
  copy = λ reader len bytes writer.
      some (record { source = reader; target = writer; bytes = take len bytes; len = len });
}

pub sample-IsPieced : IsPieced sample
sample-IsPieced (set k v) = (1, length k, (k ++ (length v ∷ v)) ∷ [], refl)
sample-IsPieced (get k) = (2, length k, k ∷ [], refl)
sample-IsPieced (remove k) = (3, length k, k ∷ [], refl)

-- The pieces are the bytes of a command.
pieces-join : (c : Command) → join (pieces c) ≡ to_bytes c
pieces-join (set k v) = ap (λ z. 1 ∷ length k ∷ z) (++-[] (k ++ (length v ∷ v)))
pieces-join (get k) = ap (λ z. 2 ∷ length k ∷ z) (++-[] k)
pieces-join (remove k) = ap (λ z. 3 ∷ length k ∷ z) (++-[] k)

drop-append : (xs ys : Bytes) → drop (length xs) (xs ++ ys) ≡ ys
drop-append [] ys = refl
drop-append (x ∷ xs) ys = drop-append xs ys

take-append : (xs ys : Bytes) → take (length xs) (xs ++ ys) ≡ xs
take-append [] ys = refl
take-append (x ∷ xs) ys = ap (λ z. x ∷ z) (take-append xs ys)

next-to_bytes : (c : Command) (rest : Bytes) → next (to_bytes c ++ rest) ≡ some (c, rest)
next-to_bytes (set k v) rest =
    let e = ++-assoc k (length v ∷ v) rest in
    rw
      (
        e,
        take-append k (length v ∷ v ++ rest),
        drop-append k (length v ∷ v ++ rest),
        take-append v rest,
        drop-append v rest,
      )
      refl
next-to_bytes (get k) rest = rw (take-append k rest, drop-append k rest) refl
next-to_bytes (remove k) rest = rw (take-append k rest, drop-append k rest) refl

module _ (behind : ℕ → List (Decoded Command × ℕ)) where
  stream_from-step :
      (fuel start x : ℕ) (bytes : Bytes) (p : Command × Bytes)
      → next (x ∷ bytes) ≡ some p
      → stream_from behind (suc fuel) start (x ∷ bytes)
        ≡ (parsed p.0, start + (length (x ∷ bytes) - length p.1))
          ∷ stream_from behind fuel (start + (length (x ∷ bytes) - length p.1)) p.1
  stream_from-step fuel start x bytes p e = rw (e, stream_from)

  stream_from-command :
      (fuel start : ℕ) (c : Command) (rest : Bytes)
      → stream_from behind (suc fuel) start (to_bytes c ++ rest)
        ≡ (parsed c, start + (length (to_bytes c ++ rest) - length rest))
          ∷ stream_from behind fuel (start + (length (to_bytes c ++ rest) - length rest)) rest
  stream_from-command fuel start (set k v) rest =
      stream_from-step fuel start 1 (length k ∷ (k ++ (length v ∷ v)) ++ rest) (set k v, rest)
        (next-to_bytes (set k v) rest)
  stream_from-command fuel start (get k) rest =
      stream_from-step fuel start 2 (length k ∷ (k ++ rest)) (get k, rest)
        (next-to_bytes (get k) rest)
  stream_from-command fuel start (remove k) rest =
      stream_from-step fuel start 3 (length k ∷ (k ++ rest)) (remove k, rest)
        (next-to_bytes (remove k) rest)

to_bytes-some : (c : Command) → 0 < length (to_bytes c)
to_bytes-some (set k v) = omega arith
to_bytes-some (get k) = omega arith
to_bytes-some (remove k) = omega arith

stream_from-offsets :
    (fuel start : ℕ) (cs : List Command)
    → length (bytes_of sample cs) < fuel
    → stream_from syntax_error fuel start (bytes_of sample cs) ≡ offsets sample start cs
stream_from-offsets zero start cs lt = absurd (omega (arith, lt))
stream_from-offsets (suc fuel) start [] lt = refl
stream_from-offsets (suc fuel) start (c ∷ cs) lt =
    let rest = bytes_of sample cs in
    let whole : bytes_of sample (c ∷ cs) ≡ to_bytes c ++ rest =
      ap (λ z. z ++ rest) (pieces-join c) in
    let sizes : length (join (pieces c)) ≡ length (to_bytes c) = ap length (pieces-join c) in
    let sum : length (bytes_of sample (c ∷ cs)) ≡ length (to_bytes c ++ rest) = ap length whole in
    let size = length-append (to_bytes c) rest in
    let end : start + (length (to_bytes c ++ rest) - length rest)
        ≡ start + length (join (pieces c)) =
      omega (arith, size, sizes) in
    ap (stream_from syntax_error (suc fuel) start) whole
    ∙ stream_from-command syntax_error fuel start c rest
    ∙ ap (λ z. (parsed c, z) ∷ stream_from syntax_error fuel z rest) end
    ∙ ap (λ z. (parsed c, start + length (join (pieces c))) ∷ z)
        (stream_from-offsets fuel (start + length (join (pieces c))) cs
          (omega (arith, size, sum, lt, to_bytes-some c)))

pub sample-IsStreaming : IsStreaming sample
sample-IsStreaming cs = stream_from-offsets (length (bytes_of sample cs) + 1) 0 cs (omega arith)
