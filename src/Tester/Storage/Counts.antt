-- ===== src/Tester/Storage/Counts.antt =====
-- What `n_committed` counts.
use key_value_distributed_sy.Base.{
  ◌>>=◌, ℕ, ◌+◌, ◌≡◌, refl, ◌∙◌, sym, subst, false, ◌&&◌, not, Option, none, some, List, [], ◌∷◌,
  ◌⊎◌, inl, inr, some_inj, ltb, if◌then◌else◌, All, Option-cases, arith,
}
use key_value_distributed_sy.Tester.Storage.{
  Entry, Log, is_some, same_entry, Storage, new_storage, count_committed, n_committed,
  apply_command,
}
use key_value_distributed_sy.Tester.Storage.Agreement.{
  IsHolding, IsContiguous, IsBelow, IsCommitted, new_storage-IsCommitted, apply_command-IsCommitted,
}

-- How many logs hold an entry at the index.
abbrev pub holders : List Log → ℕ → ℕ
holders [] index = 0
holders (log ∷ logs) index = (if is_some (log index) then 1 else 0) + holders logs index

-- An entry that fits those before it is counted.
fits :
    (count : ℕ) (entry : Entry) (cmd : Option Entry)
    → (count ≡ 0) ⊎ (cmd ≡ some entry)
    → (ltb 0 count && not (same_entry cmd (some entry))) ≡ false
fits count entry cmd (inl e) = ground arith
fits count entry cmd (inr e) = rw e (ground arith)

found-some :
    (logs : List Log) (index : ℕ) (entry : Entry) (found : Option Entry)
    → All (IsHolding index entry) logs
    → All (λ log. (log index ≡ none) ⊎ (log index ≡ found)) logs
    → (holders logs index ≡ 0 → found ≡ some entry)
    → found ≡ some entry
found-some [] index entry found h all n = n refl
found-some (log ∷ logs) index entry found (inl e, h) all n =
    found-some logs index entry found h all.1 (λ z. n (rw e (omega arith)))
found-some (log ∷ logs) index entry found (inr e, h) (inl f, all) n = absurd cc
found-some (log ∷ logs) index entry found (inr e, h) (inr f, all) n = sym f ∙ e

count_committed-agreed :
    (logs : List Log) (index count : ℕ) (entry : Entry) (cmd : Option Entry)
    → All (IsHolding index entry) logs
    → (count ≡ 0) ⊎ (cmd ≡ some entry)
    → (found : Option Entry) × (count_committed logs index (count, cmd)
        ≡ some (count + holders logs index, found))
      × (holders logs index ≡ 0 → found ≡ cmd)
      × All (λ log. (log index ≡ none) ⊎ (log index ≡ found)) logs
count_committed-agreed [] index count entry cmd h w =
    (cmd, let z : count + 0 ≡ count = omega arith in rw z refl, λ n. refl, tt)
count_committed-agreed (log ∷ logs) index count entry cmd (inl e, h) w =
    let (found, run, left, all) = count_committed-agreed logs index count entry cmd h w in
    let same : 0 + holders logs index ≡ holders logs index = omega arith in
    (found, rw (e, same) run, rw (e, same) left, (inl e, all))
count_committed-agreed (log ∷ logs) index count entry cmd (inr e, h) w =
    let (found, run, left, all) =
      count_committed-agreed logs index (count + 1) entry (some entry) h (inr refl) in
    let kept : found ≡ some entry = found-some logs index entry found h all left in
    let sum : count + (1 + holders logs index) ≡ count + 1 + holders logs index = omega arith in
    (
      found,
      rw (e, fits count entry cmd w, sum) run,
      rw e (λ z. absurd (omega arith)),
      (inr (e ∙ sym kept), all),
    )

-- The storage after some commands, each with the server that committed it and its index.
abbrev pub commit_all : List (ℕ × ℕ × Entry) → Storage → Option Storage
commit_all [] s = some s
commit_all ((i, index, entry) ∷ commits) s = do
  t ← apply_command i index entry s
  commit_all commits t

commit_all-IsCommitted :
    (commits : List (ℕ × ℕ × Entry)) (s t : Storage)
    → commit_all commits s ≡ some t
    → IsCommitted s
    → IsCommitted t
commit_all-IsCommitted [] s t e w = subst IsCommitted (some_inj e) w
commit_all-IsCommitted ((i, index, entry) ∷ commits) s t e w =
    elim (Option-cases (apply_command i index entry s)) [
      | inl n ↦ absurd (ground (arith, e, n))
      | inr (u, n) ↦
          commit_all-IsCommitted commits u t (rw n at e)
            (apply_command-IsCommitted i index entry s u n w)
    ]

-- When every server's newly committed commands have been taken in without a panic, in whatever order:
-- `n_committed` does not panic at any index, it counts the servers that hold an entry there, and every
-- one of them holds the entry that it answers, with no gap before it from index 1 on and no index
-- beyond `max_index`.
pub n_committed-commit_all :
    (n : ℕ) (commits : List (ℕ × ℕ × Entry)) (s : Storage) (index : ℕ)
    → commit_all commits (new_storage n) ≡ some s
    → (found : Option Entry) × (n_committed s index ≡ some (holders s.logs index, found))
      × (holders s.logs index ≡ 0 → found ≡ none)
      × All (λ log. (log index ≡ none) ⊎ (log index ≡ found)) s.logs
      × All IsContiguous s.logs
      × All (IsBelow s.max_index) s.logs
unfolding n_committed
n_committed-commit_all n commits s index e =
    let w = commit_all-IsCommitted commits (new_storage n) s e (new_storage-IsCommitted n) in
    let (entry, h) = w.agreed index in
    let (found, run, left, all) = count_committed-agreed s.logs index 0 entry none h (inl refl) in
    let sum : 0 + holders s.logs index ≡ holders s.logs index = omega arith in
    (found, rw sum at run, left, all, w.contiguous, w.below)
