-- ===== src/Kvs/Load.antt =====
-- project_5/src/engines/mod.rs: reading a log file into the index, and the order of the log files.
-- Proofs are in the child modules.
pub mod Ends
pub mod Order
use key_value_distributed_sy.Base.{
  ◌>>=◌, ℕ, zero, suc, ◌+◌, ◌-◌, Bool, true, false, Option, none, some, List, [], ◌∷◌, leb,
  if◌then◌else◌,
}
use key_value_distributed_sy.Base.Maps.{insert, erase, lookup}
use key_value_distributed_sy.Base.Text.{Text, same_text}
use key_value_distributed_sy.Kvs.Errors.{Result, ok, err, Decoded, parsed, refused, from_serde}
use key_value_distributed_sy.Kvs.Log.{
  Command, set, get, remove, CmdMetadata, from_range, Codec, Bytes, Disk, input,
}

-- `BTreeMap<String, CmdMetadata>`
abbrev pub Index : Type 0
Index = List (Text × CmdMetadata)

abbrev pub old_len : Option CmdMetadata → ℕ
old_len none = 0
old_len (some meta) = meta.len

-- What a command at `start..new` does to the index and to the count of stale bytes.
unfoldable pub load_command : ℕ → Command → ℕ → ℕ → Index × ℕ → Index × ℕ
unfolding insert erase lookup
load_command generation (set key _) start new (index, uncompacted) = (
  insert same_text key (from_range generation start new) index,
  uncompacted + old_len (lookup same_text key index),
)
load_command generation (remove key) start new (index, uncompacted) =
    (erase same_text key index, uncompacted + old_len (lookup same_text key index) + (new - start))
load_command generation (get key) start new (index, uncompacted) = (index, uncompacted)

-- The loop.
unfoldable pub load_stream : ℕ → ℕ → List (Decoded Command × ℕ) → Index × ℕ → Result (Index × ℕ)
unfolding load_command
load_stream generation start [] at = ok at
load_stream generation start ((refused category, new) ∷ items) at = err (from_serde category)
load_stream generation start ((parsed command, new) ∷ items) at =
    load_stream generation new items (load_command generation command start new at)

-- The count that the function returns starts at 0; here it goes on from the count so far.
unfoldable pub load_log_file : Codec → ℕ → Bytes → Index × ℕ → Result (Index × ℕ)
unfolding load_stream input
load_log_file codec generation file at = load_stream generation 0 (codec.stream (input file)) at

unfoldable pub insert_gen : ℕ → List ℕ → List ℕ
insert_gen x [] = x ∷ []
insert_gen x (y ∷ ys) = let rest = y ∷ insert_gen x ys in if leb x y then x ∷ y ∷ ys else rest

-- `gen_list.sort_unstable()`
unfoldable pub sort_gens : List ℕ → List ℕ
unfolding insert_gen
sort_gens [] = []
sort_gens (x ∷ xs) = insert_gen x (sort_gens xs)

abbrev pub gens : Disk → List ℕ
gens [] = []
gens (p ∷ disk) = p.0 ∷ gens disk

unfoldable pub sorted_generation : Disk → List ℕ
unfolding sort_gens
sorted_generation disk = sort_gens (gens disk)

-- `generation_list.last().unwrap_or(&0)`
abbrev pub last_gen : List ℕ → ℕ
last_gen [] = 0
last_gen (gen ∷ []) = gen
last_gen (gen ∷ next ∷ gens) = last_gen (next ∷ gens)
