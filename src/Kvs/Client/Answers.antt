-- ===== src/Kvs/Client/Answers.antt =====
-- project_5/src/client.rs: what the client's calls answer.
use key_value_distributed_sy.Base.{
  ℕ, ◌≤◌, ◌≡◌, refl, false, Option, none, some, [], ◌∷◌, ◌⊎◌, inl, inr, Option-cases, length, arith,
}
use key_value_distributed_sy.Base.Text.{Text}
use key_value_distributed_sy.Kvs.Errors.{is_ok, Result, ok, err, panicked, Category, eof, refused}
use key_value_distributed_sy.Kvs.Log.{set, get, remove, Bytes}
use key_value_distributed_sy.Kvs.Client.{
  ServerResponse, Stream, ClientWire, on_written, on_serialized, process_requests, got, was_set,
  was_removed, client_get, client_set, client_remove,
}

-- `read` reads no more than the slice that it is given holds.
abbrev pub IsReading : {S : Type 0} → Stream S → Type 0
IsReading io = (s t : _) (n : ℕ) (bytes : Bytes) → io.read s n ≡ some (t, bytes) → length bytes ≤ n

-- No value is written with no bytes at all.
abbrev pub IsRefusing : ClientWire → Type 0
IsRefusing wire = wire.from_slice [] ≡ refused eof

none_left : (bytes : Bytes) → length bytes ≤ 0 → bytes ≡ []
none_left [] h = refl
none_left (b ∷ bytes) h = absurd (omega arith)

module _ {S : Type 0} (io : Stream S) (wire : ClientWire) (reading : IsReading io)
    (refusing : IsRefusing wire) where
  on_written_fails : (s : S) (t : Option S) → is_ok (on_written io wire s t).1 ≡ false
  on_written_fails s none = refl
  on_written_fails s (some t) = elim (Option-cases (io.read t 0)) [
    | inl e ↦ rw e refl
    | inr ((u, bytes), e) ↦
        let empty : bytes ≡ [] = none_left bytes (reading t u 0 bytes e) in
        rw (e, empty, refusing) refl
  ]

  on_serialized_fails :
      (s : S) (vec : Category ⊎ Bytes) → is_ok (on_serialized io wire s vec).1 ≡ false
  on_serialized_fails s (inl c) = refl
  on_serialized_fails s (inr bytes) = on_written_fails s (io.write_all s bytes)

  got_fails :
      (r : Result (ServerResponse Text))
      → is_ok r ≡ false
      → (is_ok (got io wire r) ≡ false)
        × (is_ok (was_set io wire r) ≡ false)
        × (is_ok (was_removed io wire (got io wire r)) ≡ false)
  got_fails (ok response) n = cc
  got_fails (err e) n = (refl, refl, refl)
  got_fails panicked n = (refl, refl, refl)

  -- Whatever the server answers, no call of the client succeeds: it reads the answer into a vector
  -- of length 0.
  pub client_fails :
      (s : S) (key value : Text)
      → (is_ok (client_get io wire s key).1 ≡ false)
        × (is_ok (client_set io wire s key value).1 ≡ false)
        × (is_ok (client_remove io wire s key).1 ≡ false)
  unfolding client_get client_set client_remove process_requests
  client_fails s key value =
      let g = on_serialized_fails s (wire.to_vec (get key)) in
      let w = on_serialized_fails s (wire.to_vec (set key value)) in
      let r = on_serialized_fails s (wire.to_vec (remove key)) in
      (
        (got_fails (on_serialized io wire s (wire.to_vec (get key))).1 g).0,
        (got_fails (on_serialized io wire s (wire.to_vec (set key value))).1 w).1,
        (got_fails (on_serialized io wire s (wire.to_vec (remove key))).1 r).2,
      )
