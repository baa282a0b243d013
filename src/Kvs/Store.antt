-- ===== src/Kvs/Store.antt =====
-- project_5/src/engines/kvstore/kvs.rs: the store, with its writer and the log files. Proofs are in
-- the child modules.
pub mod Opens
pub mod Reads
use key_value_distributed_sy.Base.{
  ◌>>=◌, ℕ, zero, suc, ◌+◌, Bool, true, false, Option, none, some, List, [], ◌∷◌,
}
use key_value_distributed_sy.Base.Maps.{lookup}
use key_value_distributed_sy.Base.Text.{Text, same_text}
use key_value_distributed_sy.Kvs.Errors.{
  Result, ok, err, panicked, key_not_found, malformed_data, io_error,
}
use key_value_distributed_sy.Kvs.Log.{
  Command, set, get, remove, CmdMetadata, Codec, Bytes, Disk, same_gen, LogWriter, new_log_file,
}
use key_value_distributed_sy.Kvs.Load.{Index, load_log_file, sorted_generation, last_gen}
use key_value_distributed_sy.Kvs.Reader.{KvReader, read_command, clone}
use key_value_distributed_sy.Kvs.Engine.{KvsEngine}
use key_value_distributed_sy.Kvs.Writer.{KvWriter, Shelf, writer_set, writer_remove}

-- The store has an index of its own, beside the one of its writer.
pub record KvStore : Type 0 where
  pub index : Index
  pub reader : KvReader
  pub shelf : Shelf

module _ (codec : Codec) where
  pub load_file : ℕ → Option Bytes → Index × ℕ → Result (Index × ℕ)
  load_file gen none at = err io_error
  load_file gen (some file) at = load_log_file codec gen file at

  -- `?` on what a log file comes to.
  pub and_then : Result (Index × ℕ) → (Index × ℕ → Result (Index × ℕ)) → Result (Index × ℕ)
  and_then (ok at) f = f at
  and_then (err e) f = err e
  and_then panicked f = panicked

  -- The loop that loads the log files.
  unfoldable pub load_all : Disk → List ℕ → Index × ℕ → Result (Index × ℕ)
  unfolding and_then load_file lookup load_log_file
  load_all disk [] at = ok at
  load_all disk (gen ∷ gens) at =
      and_then (load_file gen (lookup same_gen gen disk) at) (load_all disk gens)

  abbrev pub opened : ℕ → Disk → Index × ℕ → KvStore
  opened curr_gen disk at =
      let kv_read : KvReader = record { readers = []; safe_point = 0 } in
      let made = new_log_file curr_gen disk in
      record {
        index = at.0;
        reader = kv_read;
        shelf = record {
          kv = record {
            curr_gen = curr_gen;
            writer = made.0;
            reader = clone kv_read;
            index = at.0;
            uncompacted_space = at.1;
          };
          disk = made.1;
        };
      }

  pub open_loaded : ℕ → Disk → Result (Index × ℕ) → Result KvStore
  open_loaded curr_gen disk (ok at) = ok (opened curr_gen disk at)
  open_loaded curr_gen disk (err e) = err e
  open_loaded curr_gen disk panicked = panicked

  unfoldable pub open_store : Disk → Result KvStore
  unfolding open_loaded load_all sorted_generation new_log_file
  open_store disk =
      let generation_list = sorted_generation disk in
      open_loaded (last_gen generation_list + 1) disk (load_all disk generation_list ([], 0))

  -- `get` once the record is read.
  pub value_read : Result Command → Result (Option Text)
  value_read (ok (set key value)) = ok (some value)
  value_read (ok (get key)) = err key_not_found
  value_read (ok (remove key)) = err key_not_found
  value_read (err e) = err e
  value_read panicked = panicked

  pub get_at : KvStore → Option CmdMetadata → KvStore × Result (Option Text)
  get_at s none = (s, err key_not_found)
  get_at s (some cmd) =
      let (reader, command) = read_command codec s.shelf.disk s.reader cmd in
      (record s { reader = reader }, value_read command)

  unfoldable pub store_get : KvStore → Text → KvStore × Result (Option Text)
  unfolding get_at value_read read_command lookup
  store_get s key = get_at s (lookup same_text key s.index)

  unfoldable pub store_set : KvStore → Text → Text → KvStore × Result Unit
  unfolding writer_set
  store_set s key value =
      let (shelf, res) = writer_set codec s.shelf key value in (record s { shelf = shelf }, res)

  unfoldable pub store_remove : KvStore → Text → KvStore × Result Unit
  unfolding writer_remove
  store_remove s key =
      let (shelf, res) = writer_remove codec s.shelf key in (record s { shelf = shelf }, res)

  -- `impl KvsEngine for KvStore`.
  abbrev pub store_engine : KvsEngine KvStore
  store_engine = record {
    engine_set = store_set;
    engine_get = store_get;
    engine_remove = store_remove;
  }
