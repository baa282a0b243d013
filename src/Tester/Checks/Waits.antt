-- ===== src/Tester/Checks/Waits.antt =====
-- How long `wait` pauses, and what it returns.
use key_value_distributed_sy.Base.{
  ◌<◌, ℕ, zero, suc, ◌+◌, ◌≤◌, ◌≡◌, refl, ap, ◌∙◌, sym, subst, true, Option, none, some, some_inj,
  ◌⊎◌, inl, inr, ltb, leb, Bool-cases, arith,
}
use key_value_distributed_sy.Tester.Storage.{Entry, Storage, n_committed}
use key_value_distributed_sy.Tester.Checks.{
  is_past, moved_on, Look, Waited, waited, lost, pause_after, wait_loop, wait_end, wait,
}
use key_value_distributed_sy.Tester.Kv.Each.{bind-some}

-- The most that `left` turns pause, the first of them for `to` milliseconds.
pauses : ℕ → ℕ → ℕ
pauses zero to = 0
pauses (suc left) to = to + pauses left (pause_after to)

-- Some server that is not crashed has a term above the one that was asked for.
abbrev pub IsPast : ℕ → Option ℕ → (ℕ → Option ℕ) → Type 0
IsPast servers start_term terms =
    (i : ℕ) × (start : ℕ) × (term : ℕ) × (i < servers)
    × (start_term ≡ some start)
    × (terms i ≡ some term)
    × (start < term)

is_past-some :
    (start : ℕ) (o : Option ℕ)
    → is_past start o ≡ true
    → (term : ℕ) × (o ≡ some term) × (start < term)
is_past-some start none e = absurd cc
is_past-some start (some term) e = (term, refl, ground (arith, e))

moved_on-IsPast :
    (servers : ℕ) (start_term : Option ℕ) (terms : ℕ → Option ℕ)
    → moved_on servers terms start_term ≡ true
    → IsPast servers start_term terms
moved_on-IsPast servers none terms e = absurd cc
moved_on-IsPast zero (some start) terms e = absurd cc
moved_on-IsPast (suc k) (some start) terms e = elim (Bool-cases (moved_on k terms (some start))) [
  | inl f ↦
      let (i, start', term, less, same, at, above) = moved_on-IsPast k (some start) terms f in
      (i, start', term, omega arith, same, at, above)
  | inr f ↦
      let past : is_past start (terms k) ≡ true = ground (arith, e, f) in
      let (term, at, above) = is_past-some start (terms k) past in
      (k, start, term, omega arith, refl, at, above)
]

module _ (servers index n : ℕ) (start_term : Option ℕ) (looks : ℕ → Look) where
  -- How the loop may end: after pauses of at most `most`, and with `lost` only when some server was
  -- seen past the term it started from, in a turn before `last_turn`.
  abbrev EndsWell : ℕ → ℕ → Waited → Type 0
  EndsWell last_turn most (waited slept) = slept ≤ most
  EndsWell last_turn most (lost slept) =
      (slept ≤ most) × (k : ℕ) × (k < last_turn) × IsPast servers start_term (looks k).terms

  EndsWell-mono : (t m m' : ℕ) (w : Waited) → m ≤ m' → EndsWell t m w → EndsWell t m' w
  EndsWell-mono t m m' (waited slept) h w = omega arith
  EndsWell-mono t m m' (lost slept) h (w, k, l, e) = (omega arith, k, l, e)

  wait_loop-EndsWell :
      (left k to slept : ℕ) (w : Waited)
      → wait_loop servers index n start_term looks left k to slept ≡ some w
      → (t : ℕ) → k + left ≡ t
      → EndsWell t (slept + pauses left to) w
  unfolding pauses
  wait_loop-EndsWell zero k to slept w e t z =
      subst (EndsWell t (slept + 0)) (some_inj e) (omega arith)
  wait_loop-EndsWell (suc left) k to slept w e t z =
      let rest =
        wait_loop servers index n start_term looks left (suc k) (pause_after to) (slept + to) in
      let (decided, at, next) = bind-some (n_committed (looks k).storage index) _ w e in
      elim (Bool-cases (leb n decided.0)) [
        | inl f ↦
            let same : waited slept ≡ w = some_inj (sym (rw f refl) ∙ next) in
            subst (EndsWell t (slept + (to + pauses left (pause_after to)))) same (omega arith)
        | inr f ↦ elim (Bool-cases (moved_on servers (looks k).terms start_term)) [
          | inl g ↦
              let same : lost (slept + to) ≡ w = some_inj (sym (rw (f, g) refl) ∙ next) in
              subst (EndsWell t (slept + (to + pauses left (pause_after to)))) same
                (omega arith, k, omega arith, moved_on-IsPast servers start_term (looks k).terms g)
          | inr g ↦
              let at : rest ≡ some w = sym (rw (f, g) refl) ∙ next in
              EndsWell-mono t (slept + to + pauses left (pause_after to))
                (slept + (to + pauses left (pause_after to))) w (omega arith)
                (wait_loop-EndsWell left (suc k) (pause_after to) (slept + to) w at t (omega arith))
        ]
      ]

  pauses_in_all : pauses 30 10 ≡ 30710
  unfolding pauses
  pauses_in_all = refl

  wait_end-some :
      (last : Storage) (w : Waited) (slept : ℕ) (cmd : Option Entry)
      → EndsWell 30 30710 w
      → wait_end index n last w ≡ some (slept, cmd)
      → (slept ≤ 30710)
        × (((cmd ≡ none) × (k : ℕ) × (k < 30) × IsPast servers start_term (looks k).terms)
            ⊎ ((count : ℕ) × (n_committed last index ≡ some (count, cmd)) × (n ≤ count)))
  wait_end-some last (lost slept') slept cmd (short, k, less, past) e =
      let same = some_inj e in
      let time : slept' ≡ slept = ap (λ p. p.0) same in
      (omega arith, inl (sym (ap (λ p. p.1) same), k, less, past))
  wait_end-some last (waited slept') slept cmd short e =
      let (decided, at, next) = bind-some (n_committed last index) _ (slept, cmd) e in
      elim (Bool-cases (ltb decided.0 n)) [
        | inl f ↦ let no_result : none ≡ some (slept, cmd) = sym (rw f refl) ∙ next in absurd cc
        | inr f ↦
            let same = some_inj (sym (rw f refl) ∙ next) in
            let time : slept' ≡ slept = ap (λ p. p.0) same in
            (
              omega arith,
              inr (
                decided.0,
                at ∙ ap (λ o. some (decided.0, o)) (ap (λ p. p.1) same),
                ground (arith, f),
              ),
            )
      ]

  -- If the code does not panic, then `wait` pauses for 30,710 milliseconds at most, and it returns
  -- what at least `n` servers have committed in the end, or nothing after, in one of the thirty turns,
  -- some server that is not crashed was seen in a term above `start_term`.
  pub wait-in_time :
      (last : Storage) (slept : ℕ) (cmd : Option Entry)
      → wait servers index n start_term looks last ≡ some (slept, cmd)
      → (slept ≤ 30710)
        × (((cmd ≡ none) × (k : ℕ) × (k < 30) × IsPast servers start_term (looks k).terms)
            ⊎ ((count : ℕ) × (n_committed last index ≡ some (count, cmd)) × (n ≤ count)))
  unfolding wait
  wait-in_time last slept cmd e =
      let (w, at, next) =
        bind-some (wait_loop servers index n start_term looks 30 0 10 0) (wait_end index n last)
          (slept, cmd) e in
      let ends : EndsWell 30 (0 + pauses 30 10) w = wait_loop-EndsWell 30 0 10 0 w at 30 refl in
      wait_end-some last w slept cmd (subst (λ m. EndsWell 30 (0 + m) w) pauses_in_all ends) next
