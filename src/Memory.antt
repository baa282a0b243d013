-- ===== src/Memory.antt =====
-- project_1/src/kvs.rs: the store in memory, over keys and values of any type. The `HashMap` is a list
-- of pairs, with the equality of the keys as a parameter. Proofs are in the child modules.
pub mod Refines
mod Tests
use key_value_distributed_sy.Base.{Bool, true, false, Option, none, some, List, []}
use key_value_distributed_sy.Base.Maps.{lookup, insert, erase}

pub record MemoryStore (K V : Type 0) : Type 0 where
  pub cache : List (K × V)

module _ {K V : Type 0} (same : K → K → Bool) where
  abbrev pub new_store : MemoryStore K V
  new_store = record { cache = [] }

  unfoldable pub store_key : MemoryStore K V → K → V → MemoryStore K V
  unfolding insert
  store_key s key value = record { cache = insert same key value s.cache }

  unfoldable pub get_key : MemoryStore K V → K → Option V
  unfolding lookup
  get_key s key = lookup same key s.cache

  abbrev pub is_some : Option V → Bool
  is_some none = false
  is_some (some v) = true

  -- Whether the key was there.
  unfoldable pub remove_key : MemoryStore K V → K → MemoryStore K V × Bool
  unfolding erase lookup
  remove_key s key = (record { cache = erase same key s.cache }, is_some (lookup same key s.cache))
