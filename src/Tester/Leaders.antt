-- ===== src/Tester/Leaders.antt =====
-- raft/src/raft/config.rs: `check_one_leader`. `none` is a panic. What the servers say in each turn is
-- an argument, with `none` for a server that was crashed. The map from terms to leaders is a list of
-- pairs; what is done does not depend on its order. Proofs are in the child module.
pub mod Claims
mod Tests
use key_value_distributed_sy.Base.{
  ◌>>=◌, ℕ, zero, suc, Bool, true, false, Option, none, some, List, [], ◌∷◌, ◌++◌, ltb, ◌==◌,
  if◌then◌else◌, length,
}
use key_value_distributed_sy.Tester.Checks.{each_until}

-- What `check_one_leader` reads of a `State`.
pub record State : Type 0 where
  pub term : ℕ
  pub is_leader : Bool

abbrev pub Leaders : Type 0
Leaders = List (ℕ × List ℕ)

-- `leaders.entry(term).or_insert_with(Vec::new).push(i)`
abbrev pub push_leader : ℕ → ℕ → Leaders → Leaders
push_leader term i [] = (term, i ∷ []) ∷ []
push_leader term i ((t, is) ∷ leaders) =
    let rest = push_leader term i leaders in
    if t == term then (t, is ++ i ∷ []) ∷ leaders else (t, is) ∷ rest

abbrev pub push_claim : ℕ → State → Leaders → Leaders
push_claim i state leaders = if state.is_leader then push_leader state.term i leaders else leaders

abbrev pub leader_turn : (ℕ → Bool) → (ℕ → Option State) → ℕ → Leaders → Option Leaders
leader_turn connected states i leaders = elim (connected i) [
  | false ↦ some leaders
  | true ↦ do state ← states i; some (push_claim i state leaders)
]

-- The loop that computes `last_term_with_leader`.
abbrev pub last_term : Leaders → ℕ → Option ℕ
last_term [] last = some last
last_term ((t, is) ∷ leaders) last =
    let rest = last_term leaders (if ltb last t then t else last) in
    if ltb 1 (length is) then none else rest

-- `leaders[&term]`
abbrev pub leaders_of : ℕ → Leaders → Option (List ℕ)
leaders_of term [] = none
leaders_of term ((t, is) ∷ leaders) =
    let rest = leaders_of term leaders in if t == term then some is else rest

abbrev pub first_of : List ℕ → Option ℕ
first_of [] = none
first_of (i ∷ is) = some i

abbrev pub is_empty : Leaders → Bool
is_empty [] = true
is_empty (l ∷ leaders) = false

module _ (n : ℕ) (connected : ℕ → Bool) (states : ℕ → ℕ → Option State) where
  -- The end of a turn.
  abbrev pub found : ℕ → Leaders → Option ℕ
  found last leaders = do is ← leaders_of last leaders; first_of is

  -- The turns that are left, from the turn `k` on.
  abbrev pub leader_loop : ℕ → ℕ → Leaders → Option ℕ
  leader_loop zero k leaders = none
  leader_loop (suc left) k leaders = do
    collected ← each_until n (leader_turn connected (states k)) leaders
    last ← last_term collected 0
    elim (is_empty collected) [
      | false ↦ found last collected
      | true ↦ leader_loop left (suc k) collected
    ]

  unfoldable pub check_one_leader : Option ℕ
  check_one_leader = leader_loop 10 0 []
