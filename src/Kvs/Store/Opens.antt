-- ===== src/Kvs/Store/Opens.antt =====
-- Which directories a store can be opened in.
use key_value_distributed_sy.Base.{ℕ, ◌≡◌, refl, some, List, [], ◌∷◌}
use key_value_distributed_sy.Base.Maps.{lookup, insert}
use key_value_distributed_sy.Kvs.Errors.{ok, err, malformed_data}
use key_value_distributed_sy.Kvs.Log.{Command, Codec, Disk, same_gen, new_log_file}
use key_value_distributed_sy.Kvs.Log.Files.{bytes_of, IsStreaming}
use key_value_distributed_sy.Kvs.Load.{Index, sorted_generation, sort_gens}
use key_value_distributed_sy.Kvs.Load.Ends.{load_log_file-ends}
use key_value_distributed_sy.Kvs.Store.{opened, open_store, load_all}

module _ (codec : Codec) (streams : IsStreaming codec) where
  load_all-first :
      (disk : Disk) (gen : ℕ) (gens : List ℕ) (cs : List Command) (at : Index × ℕ)
      → lookup same_gen gen disk ≡ some (bytes_of codec cs)
      → load_all codec disk (gen ∷ gens) at ≡ err malformed_data
  unfolding load_all
  load_all-first disk gen gens cs at found =
      rw (found, load_log_file-ends codec gen cs at streams) refl

  -- A store opens in an empty directory, with an empty index, a first log file of generation 1 and
  -- nothing to compact. In a directory whose first log file holds commands, any number of them and
  -- none included, opening fails with malformed data; the directory that the first store leaves is
  -- one of these. It holds when serde_json streams commands and refuses a byte 0 behind them.
  pub open_store_once :
      (disk : Disk) (gen : ℕ) (gens : List ℕ) (cs : List Command)
      → sorted_generation disk ≡ gen ∷ gens
      → lookup same_gen gen disk ≡ some (bytes_of codec cs)
      → (open_store codec [] ≡ ok (opened codec 1 [] ([], 0)))
        × (open_store codec disk ≡ err malformed_data)
        × (open_store codec (opened codec 1 [] ([], 0)).shelf.disk ≡ err malformed_data)
  unfolding open_store load_all sorted_generation sort_gens new_log_file lookup insert
  open_store_once disk gen gens cs sorted found =
      let first : Disk = (opened codec 1 [] ([], 0)).shelf.disk in
      (
        refl,
        rw (sorted, load_all-first disk gen gens cs ([], 0) found) refl,
        rw (load_all-first first 1 [] [] ([], 0) refl) refl,
      )
