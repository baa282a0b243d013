-- ===== src/Kvs/Client/Connects.antt =====
-- project_5/src/client.rs: how often `connect` tries.
use key_value_distributed_sy.Base.{
  ℕ, zero, suc, ◌+◌, ◌*◌, ◌^◌, ◌<◌, ◌≡◌, refl, lt→ltb, Option, none, some, Option-cases, inl, inr,
  List, arith,
}
use key_value_distributed_sy.Kvs.Errors.{Result, ok, err, server_error, too_many_retries}
use key_value_distributed_sy.Kvs.Client.{Attempt, max_retries, connect, connect_from, on_failure}
use key_value_distributed_sy.Kvs.Server.Retries.{pauses, power_below}
use native.Mathlib.Numerals.{unary_clauses}

abbrev or_later : {S : Type 0} → ℕ → Option S → Option (ℕ × S) → Option (ℕ × S)
or_later m none rest = rest
or_later m (some stream) rest = some (m, stream)

-- The first of `n` attempts that succeeds, from number `m` on, with its number.
abbrev pub first_success : {S : Type 0} → (ℕ → Option S) → ℕ → ℕ → Option (ℕ × S)
first_success attempts zero m = none
first_success attempts (suc n) m = or_later m (attempts m) (first_success attempts n (suc m))

abbrev pub outcome : {S : Type 0} → Option (ℕ × S) → ℕ × List ℕ × Result S
outcome none = (5, pauses 5, err (server_error too_many_retries))
outcome (some (n, stream)) = (n, pauses n, ok stream)

-- The attempts, the pauses and the result of `connect`; `none` when it does not end.
abbrev pub reported : {S : Type 0} → Option (Attempt × Result S) → Option (ℕ × List ℕ × Result S)
reported none = none
reported (some (a, res)) = some (a.retries, a.slept, res)

abbrev after_failures : ℕ → Attempt
after_failures m = record { backoff = 2 ^ m; retries = m; slept = pauses m }

module _ {S : Type 0} (attempts : ℕ → Option S) where
  on_failure-after_failures :
      (m : ℕ)
      → m < max_retries
      → on_failure attempts (after_failures m) ≡ (after_failures (suc m), none)
  unfolding on_failure
  on_failure-after_failures m h =
      let doubled : 2 ^ m * 2 ≡ 2 ^ suc m = simp unary_clauses refl in
      rw (power_below m h, doubled) refl

  connect_from_lem :
      (n m : ℕ)
      → m + n ≡ max_retries
      → reported (connect_from attempts (suc n) (after_failures m))
        ≡ some (outcome (first_success attempts n m))
  unfolding connect_from
  connect_from_lem zero m h = let five : m ≡ 5 = omega arith in rw five refl
  connect_from_lem (suc n) m h =
      let few : m < max_retries = omega arith in
      elim (Option-cases (attempts m)) [
        | inr (stream, e) ↦ rw (lt→ltb m max_retries few, e) refl
        | inl e ↦
            let rest = connect_from_lem n (suc m) (omega arith) in
            rw (lt→ltb m max_retries few, e, on_failure-after_failures m few) rest
      ]

  -- Whatever the attempts come to, `connect` ends, and with the stream of the first of five attempts
  -- that succeeds, or the server error when none does, never with the error of an attempt; before
  -- attempt number n, from 0, it has slept 1, 2, …, 2 ^ (n - 1) seconds.
  pub connect_first : reported (connect attempts) ≡ some (outcome (first_success attempts 5 0))
  unfolding connect
  connect_first = connect_from_lem 5 0 refl
