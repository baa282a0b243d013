-- ===== src/Tester/Checks/Agrees.antt =====
-- What `one` has seen when it returns an index.
use key_value_distributed_sy.Base.{
  ℕ, zero, suc, ◌+◌, ◌%◌, ◌<◌, ◌≤◌, ◌≡◌, refl, ap, ◌∙◌, sym, subst, Bool, true, false, Option, none,
  some, some_inj, List, [], ◌∷◌, inl, inr, ==_iff, Bool-cases, Option-cases, arith,
}
use key_value_distributed_sy.Tester.Storage.{Entry, Storage, n_committed, same_entry}
use key_value_distributed_sy.Tester.Checks.{
  Starts, started, try_servers, is_agreed, await_agreement, Turn, on_committed, one_loop, one,
}
use key_value_distributed_sy.Tester.Kv.Each.{bind-some}

-- A storage that was looked at.
pub data Looked (s : Storage) : List Storage → Type 0 where
  now : (looks : List Storage) → Looked s (s ∷ looks)
  later : (s' : Storage) (looks : List Storage) → Looked s looks → Looked s (s' ∷ looks)

-- A turn that was taken.
pub data Taken (t : Turn) : List Turn → Type 0 where
  now : (turns : List Turn) → Taken t (t ∷ turns)
  later : (t' : Turn) (turns : List Turn) → Taken t turns → Taken t (t' ∷ turns)

-- At least `expected` servers, and at least one, have committed the command at the index.
abbrev pub IsCommon : Entry → ℕ → ℕ → Storage → Type 0
IsCommon cmd expected index s =
    (nd : ℕ) × (n_committed s index ≡ some (nd, some cmd)) × (0 < nd) × (expected ≤ nd)

same_entry-some : (o : Option Entry) (x : Entry) → same_entry o (some x) ≡ true → o ≡ some x
same_entry-some none x e = absurd cc
same_entry-some (some a) x e = ap some ((==_iff a x).0 e)

is_agreed-IsCommon :
    (cmd : Entry) (expected index nd : ℕ) (cmd1 : Option Entry) (s : Storage)
    → n_committed s index ≡ some (nd, cmd1)
    → is_agreed cmd expected (nd, cmd1) ≡ true
    → IsCommon cmd expected index s
is_agreed-IsCommon cmd expected index nd cmd1 s e h =
    let same = same_entry-some cmd1 cmd (ground (arith, h)) in
    (nd, e ∙ ap (λ o. some (nd, o)) same, ground (arith, h), ground (arith, h))

await_agreement-IsCommon :
    (cmd : Entry) (expected index : ℕ) (looks : List Storage)
    → await_agreement cmd expected index looks ≡ some true
    → (s : Storage) × Looked s looks × IsCommon cmd expected index s
await_agreement-IsCommon cmd expected index [] e = absurd cc
await_agreement-IsCommon cmd expected index (s ∷ looks) e =
    let (decided, at, next) = bind-some (n_committed s index) _ (true) e in
    elim (Bool-cases (is_agreed cmd expected decided)) [
      | inl f ↦ (s, now looks, is_agreed-IsCommon cmd expected index decided.0 decided.1 s at f)
      | inr f ↦
          let (s', seen, common) =
            await_agreement-IsCommon cmd expected index looks (sym (rw f refl) ∙ next) in
          (s', later s looks seen, common)
    ]

module _ (n : ℕ) (connected : ℕ → Bool) where
  -- A server that is connected, and has given the index.
  abbrev pub IsStarted : Starts → ℕ → Type 0
  IsStarted answers index = (i : ℕ) × (connected i ≡ true) × (answers i ≡ some (some index))

  started-some :
      (on : Bool) (answer : Option (Option ℕ)) (index : ℕ)
      → started on answer ≡ some index
      → (on ≡ true) × (answer ≡ some (some index))
  started-some true (some (some index')) index e = (refl, ap some e)
  started-some true (some none) index e = absurd cc
  started-some true none index e = absurd cc
  started-some false answer index e = absurd cc

  try_servers-IsStarted :
      (answers : Starts) (left starts index : ℕ)
      → (try_servers n connected answers left starts).1 ≡ some index
      → IsStarted answers index
  try_servers-IsStarted answers zero starts index e = absurd cc
  try_servers-IsStarted answers (suc left) starts index e =
      let next = (starts + 1) % n in
      elim (Option-cases (started (connected next) (answers next))) [
        | inr (index', f) ↦
            let same : some index' ≡ some index = sym (rw (f, try_servers) refl) ∙ e in
            let (on, given) = started-some (connected next) (answers next) index' f in
            (next, on, given ∙ ap some same)
        | inl f ↦ try_servers-IsStarted answers left next index (sym (rw (f, try_servers) refl) ∙ e)
      ]

  one_loop-IsCommon :
      (cmd : Entry) (expected : ℕ) (retry : Bool) (turns : List Turn) (starts index : ℕ)
      → one_loop n connected cmd expected retry turns starts ≡ some index
      → (t : Turn) × Taken t turns
        × IsStarted t.answers index
        × ((s : Storage) × Looked s t.looks × IsCommon cmd expected index s)
  one_loop-IsCommon cmd expected retry [] starts index e = absurd cc
  one_loop-IsCommon cmd expected retry (turn ∷ turns) starts index e =
      let answers = turn.answers in
      let tried = try_servers n connected answers n starts in
      let rest = one_loop-IsCommon cmd expected retry turns tried.0 index in
      elim (Option-cases tried.1) [
        | inl f ↦
            let (t, taken, given, found) = rest (sym (rw (f, one_loop) refl) ∙ e) in
            (t, later turn turns taken, given, found)
        | inr (index', f) ↦
            let later_turns = one_loop n connected cmd expected retry turns tried.0 in
            let (committed, at, next) =
              bind-some (await_agreement cmd expected index' turn.looks)
                (λ committed. on_committed committed retry index' later_turns) index
                (sym (rw (f, one_loop) refl) ∙ e) in
            elim (Bool-cases committed) [
              | inl g ↦
                  let same : some index' ≡ some index = sym (rw g refl) ∙ next in
                  let given = try_servers-IsStarted answers n starts index' f in
                  let seen =
                    await_agreement-IsCommon cmd expected index' turn.looks (at ∙ ap some g) in
                  (
                    turn,
                    now turns,
                    subst (IsStarted answers) (some_inj same) given,
                    subst
                        (λ index.
                          (s : Storage) × Looked s turn.looks × IsCommon cmd expected index s)
                        (some_inj same) seen,
                  )
              | inr g ↦ elim (Bool-cases retry) [
                | inl r ↦
                    let (t, taken, given, found) = rest (sym (rw (g, r) refl) ∙ next) in
                    (t, later turn turns taken, given, found)
                | inr r ↦
                    let no_result : none ≡ some index = sym (rw (g, r) refl) ∙ next in absurd cc
              ]
            ]
      ]

  -- When `one` returns an index, then in one of its turns a connected server has given that index for
  -- the command, and in a storage that was looked at in that turn at least `expected_servers`
  -- servers, and at least one, have committed the command at that index.
  pub one-IsCommon :
      (cmd : Entry) (expected_servers : ℕ) (retry : Bool) (turns : List Turn) (index : ℕ)
      → one n connected cmd expected_servers retry turns ≡ some index
      → (t : Turn) × Taken t turns
        × IsStarted t.answers index
        × ((s : Storage) × Looked s t.looks × IsCommon cmd expected_servers index s)
  unfolding one
  one-IsCommon cmd expected_servers retry turns index e =
      one_loop-IsCommon cmd expected_servers retry turns 0 index e
