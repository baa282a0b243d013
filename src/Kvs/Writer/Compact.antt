-- ===== src/Kvs/Writer/Compact.antt =====
-- `compact` of a writer whose reader has no handles, which is what `open` makes it with.
use key_value_distributed_sy.Base.{
  ℕ, ◌+◌, ◌-◌, ◌≤◌, ◌<◌, ◌≡◌, refl, ap, ◌∙◌, sym, Bool, true, none, some, List, [], ◌∷◌, ltb, arith,
  has, keep, Bool-cases, Option-cases, inl, inr, ◌==◌, ==_iff,
}
use key_value_distributed_sy.Base.Maps.{erase, lookup, lookup-erase, lookup-erase_other, ==-IsTest}
use key_value_distributed_sy.Kvs.Errors.{ok}
use key_value_distributed_sy.Kvs.Log.{Codec, Disk, same_gen, new_log_file}
use key_value_distributed_sy.Kvs.Load.{Index, gens, sort_gens, sorted_generation}
use key_value_distributed_sy.Kvs.Load.Order.{sort_gens-has, lookup-has}
use key_value_distributed_sy.Kvs.Writer.{
  KvWriter, Shelf, Copying, remove_files, copy_entry, copy_entries, after_copy, compact,
}

has-keep : (p : ℕ → Bool) (k : ℕ) (xs : List ℕ) → p k ≡ true → has k (keep p xs) ≡ has k xs
has-keep p k [] e = refl
has-keep p k (x ∷ xs) e = elim (Bool-cases (k == x)) [
  | inl t ↦ let at : p x ≡ true = ap p (sym ((==_iff k x).0 t)) ∙ e in ground (arith, t, at)
  | inr t ↦ elim (Bool-cases (p x)) [
    | inl a ↦ ground (arith, t, a, has-keep p k xs e)
    | inr a ↦ ground (arith, t, a, has-keep p k xs e)
  ]
]

lookup-erase-none :
    (g gen : ℕ) (disk : Disk)
    → lookup same_gen g disk ≡ none
    → lookup same_gen g (erase same_gen gen disk) ≡ none
lookup-erase-none g gen disk e = elim (Bool-cases (same_gen g gen)) [
  | inl t ↦
      let q = (==_iff g gen).0 t in
      ap (λ z. lookup same_gen z (erase same_gen gen disk)) q
      ∙ lookup-erase same_gen ==-IsTest gen disk
  | inr t ↦ lookup-erase_other same_gen ==-IsTest g gen disk t ∙ e
]

remove_files-none :
    (g : ℕ) (gs : List ℕ) (disk : Disk)
    → lookup same_gen g disk ≡ none
    → lookup same_gen g (remove_files gs disk) ≡ none
remove_files-none g [] disk e = e
remove_files-none g (x ∷ gs) disk e =
    remove_files-none g gs (erase same_gen x disk) (lookup-erase-none g x disk e)

remove_files-has :
    (g : ℕ) (gs : List ℕ) (disk : Disk)
    → has g gs ≡ true
    → lookup same_gen g (remove_files gs disk) ≡ none
remove_files-has g [] disk h = cc
remove_files-has g (x ∷ gs) disk h = elim (Bool-cases (g == x)) [
  | inl t ↦
      let q = (==_iff g x).0 t in
      remove_files-none g gs (erase same_gen x disk) (
        ap (λ z. lookup same_gen z (erase same_gen x disk)) q
        ∙ lookup-erase same_gen ==-IsTest x disk)
  | inr t ↦ remove_files-has g gs (erase same_gen x disk) (ground (arith, t, h))
]

-- No file is left of a generation that is listed as stale.
pub stale-removed :
    (g limit : ℕ) (disk : Disk)
    → g < limit
    → lookup same_gen g (remove_files (keep (λ gen. ltb gen limit) (sorted_generation disk)) disk)
      ≡ none
unfolding sorted_generation
stale-removed g limit disk lt =
    let stale = keep (λ gen. ltb gen limit) (sorted_generation disk) in
    elim (Option-cases (lookup same_gen g disk)) [
      | inl e ↦ remove_files-none g stale disk e
      | inr (file, e) ↦ remove_files-has g stale disk (
          has-keep (λ gen. ltb gen limit) g (sort_gens (gens disk)) (ground arith)
          ∙ sort_gens-has g (gens disk)
          ∙ lookup-has g file disk e)
    ]

module _ (codec : Codec) where
  copy_entries-unread :
      (compact_gen : ℕ) (index : Index) (c : Copying)
      → c.readers ≡ []
      → copy_entries codec compact_gen index c ≡ some (index, c)
  unfolding copy_entries copy_entry lookup
  copy_entries-unread compact_gen [] c u = refl
  copy_entries-unread compact_gen (p ∷ index) c u =
      let unread : lookup same_gen p.1.generation_num c.readers ≡ none =
        ap (lookup same_gen p.1.generation_num) u in
      rw (unread, copy_entries-unread compact_gen index c u) refl

  -- Without handles to read through, `compact` copies nothing: it answers that it succeeded, the
  -- index still refers to the log files there were, and all of them are removed.
  pub compact-unread :
      (s : Shelf)
      → s.kv.reader.readers ≡ []
      → ((compact codec s).1 ≡ ok tt)
        × ((compact codec s).0.kv.index ≡ s.kv.index)
        × ((compact codec s).0.kv.curr_gen ≡ s.kv.curr_gen + 2)
        × ((gen : ℕ) → gen ≤ s.kv.curr_gen → lookup same_gen gen (compact codec s).0.disk ≡ none)
  unfolding compact after_copy
  compact-unread s unread =
      let compact_gen : ℕ = s.kv.curr_gen + 1 in
      let (writer, disk1) = new_log_file (s.kv.curr_gen + 2) s.disk in
      let (compact_writer, disk2) = new_log_file compact_gen disk1 in
      let c : Copying = record {
        readers = s.kv.reader.readers;
        compact_writer = compact_writer;
        position = 0;
        disk = disk2;
      } in
      let kv : KvWriter = record (s.kv) { curr_gen = s.kv.curr_gen + 2; writer = writer } in
      let run : compact codec s ≡ after_copy codec kv disk2 (some (s.kv.index, c)) =
        ap (after_copy codec kv disk2) (copy_entries-unread compact_gen s.kv.index c unread) in
      (
        ap (λ r. r.1) run,
        ap (λ r. r.0.kv.index) run,
        ap (λ r. r.0.kv.curr_gen) run,
        λ gen le.
            ap (λ r. lookup same_gen gen r.0.disk) run
            ∙ stale-removed gen (s.kv.curr_gen + 2 - 1) disk2 (omega (arith, le)),
      )
