-- ===== src/Kvs/Server/Retries.antt =====
-- project_5/src/server.rs: how often `run` tries again, and for how long it sleeps.
use key_value_distributed_sy.Base.{
  ℕ, suc, zero, ◌+◌, ◌*◌, ◌^◌, ◌≤◌, ◌<◌, ◌≡◌, refl, false, Option, none, some, List, [], ◌∷◌, inl,
  inr, Bool-cases, ltb, ltb→lt, arith,
}
use native.Mathlib.Numerals.{unary_clauses}
use key_value_distributed_sy.Kvs.Errors.{Result, ok, err, panicked}
use key_value_distributed_sy.Kvs.Log.{Bytes}
use key_value_distributed_sy.Kvs.Engine.{KvsEngine}
use key_value_distributed_sy.Kvs.Server.{
  Wire, Incoming, bind_failed, accept_failed, accepted, Loop, started, turn, run_from, run,
  expected, go_on, max_retries, max_backoff, serve_client,
}

-- The seconds of `n` pauses, the last first: 2 ^ (n - 1), …, 4, 2, 1.
abbrev pub pauses : ℕ → List ℕ
pauses zero = []
pauses (suc n) = (2 ^ n) ∷ pauses n

abbrev pub failures : List Incoming → ℕ
failures [] = 0
failures (bind_failed ∷ xs) = failures xs
failures (accept_failed ∷ xs) = suc (failures xs)
failures (accepted tcp ∷ xs) = failures xs

pub record IsPaced {E : Type 0} (s : Loop E) : Type 0 where
  pub few : s.retries ≤ max_retries
  pub doubled : s.backoff ≡ 2 ^ s.retries
  pub paused : s.slept ≡ pauses s.retries

pub power_below : (n : ℕ) → n < 5 → ltb max_backoff (2 ^ n) ≡ false
power_below zero h = refl
power_below (suc zero) h = refl
power_below (suc (suc zero)) h = refl
power_below (suc (suc (suc zero))) h = refl
power_below (suc (suc (suc (suc zero)))) h = refl
power_below (suc (suc (suc (suc (suc n))))) h = absurd (omega arith)

-- The loop after another pause.
abbrev pub paused_loop : {E : Type 0} → Loop E → Loop E
paused_loop s = record s {
  backoff = s.backoff * 2;
  retries = suc s.retries;
  slept = s.backoff ∷ s.slept;
}

pub paused_loop-IsPaced :
    {E : Type 0} (s : Loop E) → IsPaced s → s.retries < max_retries → IsPaced (paused_loop s)
paused_loop-IsPaced s p h = record {
  few = omega arith;
  doubled = rw p.doubled (simp unary_clauses refl);
  paused = rw (p.paused, p.doubled) refl;
}

added : Incoming → ℕ
added bind_failed = 0
added accept_failed = 1
added (accepted tcp) = 0

failures-cons : (x : Incoming) (xs : List Incoming) → failures (x ∷ xs) ≡ added x + failures xs
unfolding added
failures-cons bind_failed xs = omega arith
failures-cons accept_failed xs = omega arith
failures-cons (accepted tcp) xs = omega arith

module _ {E : Type 0} (api : KvsEngine E) (wire : Wire) where
  -- What a turn keeps.
  IsTurn : Loop E → ℕ → Loop E × Option (Result Unit) → Type 0
  IsTurn s n out = IsPaced out.0 × (out.1 ≡ none → out.0.retries ≡ s.retries + n)

  expected-IsTurn :
      (s : Loop E) (r : E × Result Bytes) → IsPaced s → IsTurn s 0 (expected api wire s r)
  unfolding IsTurn
  expected-IsTurn s (e, ok response) p =
      (record { few = p.few; doubled = p.doubled; paused = p.paused }, λ w. omega arith)
  expected-IsTurn s (e, err x) p =
      (record { few = p.few; doubled = p.doubled; paused = p.paused }, λ w. omega arith)
  expected-IsTurn s (e, panicked) p =
      (record { few = p.few; doubled = p.doubled; paused = p.paused }, λ w. omega arith)

  pub turn_failed :
      (s : Loop E)
      → IsPaced s
      → s.retries < max_retries
      → turn api wire s accept_failed ≡ (paused_loop s, none)
  unfolding turn
  turn_failed s p h =
      let below : ltb max_backoff s.backoff ≡ false = rw p.doubled (power_below s.retries h) in
      rw below refl

  turn-IsTurn :
      (s : Loop E) (x : Incoming)
      → IsPaced s
      → s.retries < max_retries
      → IsTurn s (added x) (turn api wire s x)
  unfolding turn added IsTurn
  turn-IsTurn s bind_failed p h = (p, λ w. omega arith)
  turn-IsTurn s (accepted tcp) p h = expected-IsTurn s (serve_client api wire s.engine tcp) p
  turn-IsTurn s accept_failed p h =
      rw (turn_failed s p h) (paused_loop-IsPaced s p h, λ w. omega arith)

  -- What the loop comes to from `s` when it has `n` failures to go.
  IsRun : Loop E → ℕ → Loop E × Option (Result Unit) → Type 0
  IsRun s n out =
      IsPaced out.0
      × (out.1 ≡ none → (out.0.retries ≡ s.retries + n) × (out.0.retries < max_retries))

  go_on-IsRun :
      (s : Loop E) (m n : ℕ) (now rest : Loop E × Option (Result Unit))
      → IsTurn s m now
      → IsRun now.0 n rest
      → IsRun s (m + n) (go_on api wire now rest)
  unfolding IsTurn IsRun
  go_on-IsRun s m n (t, some res) rest p q = (p.0, λ w. cc)
  go_on-IsRun s m n (t, none) rest p q =
      (q.0, λ w. let r = q.1 w in let u = p.1 refl in (omega arith, r.1))

  run_from-IsRun :
      (s : Loop E) (xs : List Incoming) → IsPaced s → IsRun s (failures xs) (run_from api wire s xs)
  unfolding run_from IsRun IsTurn
  run_from-IsRun s [] p = elim (Bool-cases (ltb s.retries max_retries)) [
    | inl e ↦ rw e (p, λ w. (omega arith, ltb→lt s.retries max_retries e))
    | inr e ↦ rw e (p, λ w. cc)
  ]
  run_from-IsRun s (x ∷ xs) p = elim (Bool-cases (ltb s.retries max_retries)) [
    | inl e ↦
        let t = turn-IsTurn s x p (ltb→lt s.retries max_retries e) in
        let rest = run_from-IsRun (turn api wire s x).0 xs t.0 in
        rw (e, failures-cons x xs)
          (go_on-IsRun s (added x) (failures xs) (turn api wire s x)
            (run_from api wire (turn api wire s x).0 xs) t rest)
    | inr e ↦ rw e (p, λ w. cc)
  ]

  pub started-IsPaced : (e : E) → IsPaced (started e)
  started-IsPaced e = record { few = omega arith; doubled = refl; paused = refl }

  -- Whatever comes in, `run` tries again after a failed `accept` five times at most, and between
  -- them sleeps 1, 2, 4, … seconds; a `run` that still waits has had fewer than five failures of
  -- `accept` in all, however many clients it has served in between, so that the fifth one ends it.
  pub run_retries :
      (e : E) (xs : List Incoming)
      → ((run api wire e xs).0.retries ≤ max_retries)
        × ((run api wire e xs).0.slept ≡ pauses (run api wire e xs).0.retries)
        × ((run api wire e xs).1 ≡ none
            → ((run api wire e xs).0.retries ≡ failures xs) × (failures xs < max_retries))
  unfolding run IsRun
  run_retries e xs =
      let r = run_from-IsRun (started e) xs (started-IsPaced e) in
      (r.0.few, r.0.paused, λ w. let q = r.1 w in (omega arith, omega arith))
