-- ===== src/Kvs/Store/Reads.antt =====
-- What `get` answers: the handles that it reads through are never opened.
use key_value_distributed_sy.Base.{
  ℕ, ◌≡◌, refl, ap, ◌∙◌, none, some, List, [], ◌∷◌, Option-cases, inl, inr, ◌⊎◌,
}
use key_value_distributed_sy.Base.Maps.{lookup}
use key_value_distributed_sy.Base.Text.{Text, same_text}
use key_value_distributed_sy.Kvs.Errors.{err, panicked, key_not_found}
use key_value_distributed_sy.Kvs.Log.{CmdMetadata, Codec, Disk}
use key_value_distributed_sy.Kvs.Reader.{
  KvReader, read_command, close_stale, reopen, read_through, read_handle,
}
use key_value_distributed_sy.Kvs.Store.{
  KvStore, store_get, get_at, value_read, store_set, store_remove, opened,
}
use key_value_distributed_sy.Kvs.Load.{Index}

-- The calls that clients make.
pub data Request : Type 0 where
  get_of : Text → Request
  set_to : Text → Text → Request
  remove_of : Text → Request

module _ (codec : Codec) where
  abbrev pub handle : KvStore → Request → KvStore
  handle s (get_of key) = (store_get codec s key).0
  handle s (set_to key value) = (store_set codec s key value).0
  handle s (remove_of key) = (store_remove codec s key).0

  abbrev pub handle_all : KvStore → List Request → KvStore
  handle_all s [] = s
  handle_all s (r ∷ rs) = handle_all (handle s r) rs

  read_command-closed :
      (disk : Disk) (r : KvReader) (cmd : CmdMetadata)
      → r.readers ≡ []
      → ((read_command codec disk r cmd).0.readers ≡ [])
        × ((read_command codec disk r cmd).1 ≡ panicked)
  unfolding read_command close_stale reopen read_through read_handle lookup
  read_command-closed disk r cmd e = rw e (refl, refl)

  -- What stays as it was when the store was opened.
  abbrev pub IsClosed : KvStore → KvStore → Type 0
  IsClosed s0 s = (s.reader.readers ≡ []) × (s.index ≡ s0.index)

  store_get-IsClosed :
      (s0 s : KvStore) (key : Text) → IsClosed s0 s → IsClosed s0 (store_get codec s key).0
  unfolding store_get get_at
  store_get-IsClosed s0 s key w = elim (Option-cases (lookup same_text key s.index)) [
    | inl e ↦ rw e w
    | inr (cmd, e) ↦
        let closed = read_command-closed s.shelf.disk s.reader cmd w.0 in rw e (closed.0, w.1)
  ]

  pub handle-IsClosed : (s0 s : KvStore) (r : Request) → IsClosed s0 s → IsClosed s0 (handle s r)
  unfolding store_set store_remove
  handle-IsClosed s0 s (get_of key) w = store_get-IsClosed s0 s key w
  handle-IsClosed s0 s (set_to key value) w = w
  handle-IsClosed s0 s (remove_of key) w = w

  handle_all-IsClosed :
      (s0 s : KvStore) (rs : List Request) → IsClosed s0 s → IsClosed s0 (handle_all s rs)
  handle_all-IsClosed s0 s [] w = w
  handle_all-IsClosed s0 s (r ∷ rs) w =
      handle_all-IsClosed s0 (handle s r) rs (handle-IsClosed s0 s r w)

  -- In a store that is made from a loaded index, `get` reads that index, whatever was set or removed
  -- since: on a key that is not in it, `get` answers the error that the key is not found, and on any
  -- other key it panics, since no handle to a log file is ever opened. It never answers a value, nor
  -- that there is none.
  pub store_get-opened :
      (curr_gen : ℕ) (disk : Disk) (loaded : Index × ℕ) (rs : List Request) (key : Text)
      → ((lookup same_text key loaded.0 ≡ none)
          × ((store_get codec (handle_all (opened codec curr_gen disk loaded) rs) key).1
              ≡ err key_not_found))
        ⊎ (((cmd : CmdMetadata) × (lookup same_text key loaded.0 ≡ some cmd))
            × ((store_get codec (handle_all (opened codec curr_gen disk loaded) rs) key).1
                ≡ panicked))
  unfolding store_get get_at value_read
  store_get-opened curr_gen disk loaded rs key =
      let s0 = opened codec curr_gen disk loaded in
      let s = handle_all s0 rs in
      let w : IsClosed s0 s = handle_all-IsClosed s0 s0 rs (refl, refl) in
      let same : lookup same_text key s.index ≡ lookup same_text key loaded.0 =
        ap (lookup same_text key) w.1 in
      elim (Option-cases (lookup same_text key loaded.0)) [
        | inl e ↦
            let run : get_at codec s (lookup same_text key s.index) ≡ get_at codec s none =
              ap (get_at codec s) (same ∙ e) in
            inl (e, ap (λ r. r.1) run)
        | inr (cmd, e) ↦
            let run : get_at codec s (lookup same_text key s.index) ≡ get_at codec s (some cmd) =
              ap (get_at codec s) (same ∙ e) in
            let closed = read_command-closed s.shelf.disk s.reader cmd w.0 in
            inr ((cmd, e), ap (λ r. r.1) run ∙ ap (value_read codec) closed.1)
      ]
