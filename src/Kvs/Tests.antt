-- ===== src/Kvs/Tests.antt =====
-- The theorems on the store of project_5, with the sample codec.
use key_value_distributed_sy.Base.{ℕ, ◌≤◌, ◌≡◌, refl, none, some, List, [], ◌∷◌, ◌⊎◌}
use key_value_distributed_sy.Base.Maps.{lookup}
use key_value_distributed_sy.Base.Text.{Text, same_text}
use key_value_distributed_sy.Kvs.Errors.{ok, err, panicked, key_not_found, malformed_data}
use key_value_distributed_sy.Kvs.Log.{Command, set, CmdMetadata, Disk, same_gen, to_writer}
use key_value_distributed_sy.Kvs.Log.Files.{bytes_of, to_writer-second_byte}
use key_value_distributed_sy.Kvs.Sample.{sample, sample-IsStreaming, sample-IsPieced}
use key_value_distributed_sy.Kvs.Load.{
  Index, load_log_file, sorted_generation, sort_gens, insert_gen,
}
use key_value_distributed_sy.Kvs.Load.Ends.{load_log_file-ends}
use key_value_distributed_sy.Kvs.Writer.{Shelf, writer_set, writer_remove, compact}
use key_value_distributed_sy.Kvs.Writer.Sets.{writer_panics}
use key_value_distributed_sy.Kvs.Writer.Compact.{compact-unread}
use key_value_distributed_sy.Kvs.Store.{opened, open_store, store_get}
use key_value_distributed_sy.Kvs.Store.Opens.{open_store_once}
use key_value_distributed_sy.Kvs.Store.Reads.{handle_all, set_to, remove_of, store_get-opened}

abbrev key : Text
key = 107 ∷ []

abbrev other_key : Text
other_key = 108 ∷ []

-- The commands of the log file of generation 1: the second `set` makes the first one stale.
abbrev commands : List Command
commands = set key (97 ∷ []) ∷ set other_key (98 ∷ []) ∷ set key (99 ∷ []) ∷ []

abbrev disk : Disk
disk = (1, bytes_of sample commands) ∷ []

to_writer-second_byte_example :
    to_writer (record { generation = 1; index = 0 }) ((123 ∷ []) ∷ (34 ∷ []) ∷ (83 ∷ 101 ∷ []) ∷ [])
    ≡ none
to_writer-second_byte_example =
    to_writer-second_byte (record { generation = 1; index = 0 }) 123 34 ((83 ∷ 101 ∷ []) ∷ [])

load_log_file-ends_example :
    load_log_file sample 1 (bytes_of sample commands) ([], 0) ≡ err malformed_data
load_log_file-ends_example = load_log_file-ends sample 1 commands ([], 0) sample-IsStreaming

sorted : sorted_generation disk ≡ 1 ∷ []
unfolding sorted_generation sort_gens insert_gen
sorted = refl

found : lookup same_gen 1 disk ≡ some (bytes_of sample commands)
unfolding lookup
found = refl

open_store_once_example :
    (open_store sample [] ≡ ok (opened sample 1 [] ([], 0)))
    × (open_store sample disk ≡ err malformed_data)
    × (open_store sample (opened sample 1 [] ([], 0)).shelf.disk ≡ err malformed_data)
open_store_once_example = open_store_once sample sample-IsStreaming disk 1 [] commands sorted found

-- A writer at the start of its first log file.
abbrev shelf : Shelf
shelf = record {
  kv = record {
    curr_gen = 1;
    writer = record { generation = 1; index = 0 };
    reader = record { readers = []; safe_point = 0 };
    index = (key, record { generation_num = 1; position = 0; len = 5 }) ∷ [];
    uncompacted_space = 0;
  };
  disk = (1, []) ∷ [];
}

writer_panics_example :
    (((writer_set sample shelf key (97 ∷ [])).1 ≡ panicked)
      × ((writer_set sample shelf key (97 ∷ [])).0.kv.index ≡ shelf.kv.index))
    × (((cmd : CmdMetadata) × (lookup same_text key shelf.kv.index ≡ some cmd)
          × ((writer_remove sample shelf key).1 ≡ panicked)
          × ((writer_remove sample shelf key).0.kv.index ≡ shelf.kv.index))
        ⊎ ((lookup same_text key shelf.kv.index ≡ none)
            × (writer_remove sample shelf key ≡ (shelf, err key_not_found))))
writer_panics_example = writer_panics sample sample-IsPieced shelf key (97 ∷ [])

compact-unread_example :
    ((compact sample shelf).1 ≡ ok tt)
    × ((compact sample shelf).0.kv.index ≡ shelf.kv.index)
    × ((compact sample shelf).0.kv.curr_gen ≡ 3)
    × ((gen : ℕ) → gen ≤ 1 → lookup same_gen gen (compact sample shelf).0.disk ≡ none)
compact-unread_example = compact-unread sample shelf refl

abbrev place : CmdMetadata
place = record { generation_num = 1; position = 0; len = 6 }

abbrev known : Index × ℕ
known = ((key, place) ∷ [], 0)

store_get-opened_example :
    ((lookup same_text key known.0 ≡ none)
      × ((store_get sample
            (handle_all sample
              (opened sample 2 disk known)
              (set_to other_key key ∷ remove_of key ∷ []))
            key).1
          ≡ err key_not_found))
    ⊎ (((cmd : CmdMetadata) × (lookup same_text key known.0 ≡ some cmd))
        × ((store_get sample
              (handle_all sample
                (opened sample 2 disk known)
                (set_to other_key key ∷ remove_of key ∷ []))
              key).1
            ≡ panicked))
store_get-opened_example =
    store_get-opened sample 2 disk known (set_to other_key key ∷ remove_of key ∷ []) key
