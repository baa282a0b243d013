-- ===== src/Tester/Checks.antt =====
-- raft/src/raft/config.rs: what the tester of Raft asks of the servers. `none` is a panic. What the
-- servers say, and what they have committed when they are asked, are arguments: `connected` as the
-- tester has it, a term or a claim by server with `none` for a server that was crashed, and a storage
-- for each time that it is read. Proofs are in the child modules.
pub mod Terms
pub mod Waits
pub mod Agrees
mod Tests
use key_value_distributed_sy.Base.{
  ◌>>=◌, ℕ, zero, suc, ◌+◌, ◌*◌, ◌%◌, Bool, true, false, ◌&&◌, ◌||◌, not, Option, none, some, List,
  [], ◌∷◌, ltb, leb, ◌==◌, if◌then◌else◌,
}
use key_value_distributed_sy.Tester.Storage.{Entry, Storage, n_committed, same_entry}

-- `for k in 0..n`, where a turn may panic.
abbrev pub each_until : {S : Type 0} → ℕ → (ℕ → S → Option S) → S → Option S
each_until zero f s = some s
each_until (suc k) f s = do next ← each_until k f s; f k next

-- One turn of the loop of `check_terms`, for a server that is connected.
abbrev pub compare_term : ℕ → ℕ → Option ℕ
compare_term xterm term =
    if term == 0 then some xterm else if not (term == xterm) then none else some term

abbrev pub term_turn : (ℕ → Bool) → (ℕ → Option ℕ) → ℕ → ℕ → Option ℕ
term_turn connected terms i term = elim (connected i) [
  | false ↦ some term
  | true ↦ do xterm ← terms i; compare_term xterm term
]

unfoldable pub check_terms : ℕ → (ℕ → Bool) → (ℕ → Option ℕ) → Option ℕ
check_terms n connected terms = each_until n (term_turn connected terms) 0

abbrev pub Done : Type 0
Done = Unit

abbrev pub claim_turn : (ℕ → Bool) → (ℕ → Option Bool) → ℕ → Done → Option Done
claim_turn connected claims i done = elim (connected i) [
  | false ↦ some done
  | true ↦ do is_leader ← claims i; if is_leader then none else some done
]

unfoldable pub check_no_leader : ℕ → (ℕ → Bool) → (ℕ → Option Bool) → Option Done
check_no_leader n connected claims = each_until n (claim_turn connected claims) tt

-- Whether a server that is not crashed has a term above `start_term`.
abbrev pub is_past : ℕ → Option ℕ → Bool
is_past start_term none = false
is_past start_term (some term) = ltb start_term term

abbrev pub moved_on : ℕ → (ℕ → Option ℕ) → Option ℕ → Bool
moved_on n terms none = false
moved_on zero terms (some start_term) = false
moved_on (suc k) terms (some start_term) =
    moved_on k terms (some start_term) || is_past start_term (terms k)

-- A time when `wait` looks: at the storage, and after its pause at the terms.
pub record Look : Type 0 where
  pub storage : Storage
  pub terms : ℕ → Option ℕ

-- How the loop of `wait` ends, with the milliseconds that it has paused: on a `break` or after its
-- last turn, or with `return None`.
pub data Waited : Type 0 where
  waited : ℕ → Waited
  lost : ℕ → Waited

abbrev pub pause_after : ℕ → ℕ
pause_after to = if ltb to 1000 then to * 2 else to

-- The turns that are left, from the turn `k` on.
abbrev pub wait_loop : ℕ → ℕ → ℕ → Option ℕ → (ℕ → Look) → ℕ → ℕ → ℕ → ℕ → Option Waited
wait_loop servers index n start_term looks zero k to slept = some (waited slept)
wait_loop servers index n start_term looks (suc left) k to slept =
    let rest =
      wait_loop servers index n start_term looks left (suc k) (pause_after to) (slept + to) in
    do
      decided ← n_committed (looks k).storage index
      if leb n decided.0
          then some (waited slept)
          else if moved_on servers (looks k).terms start_term
          then some (lost (slept + to))
          else rest

-- `wait`, which looks 30 times at most in its loop, and then at the storage `last`; with the
-- milliseconds that it has paused.
abbrev pub wait_end : ℕ → ℕ → Storage → Waited → Option (ℕ × Option Entry)
wait_end index n last (lost slept) = some (slept, none)
wait_end index n last (waited slept) = do
  decided ← n_committed last index
  if ltb decided.0 n then none else some (slept, decided.1)

unfoldable pub wait : ℕ → ℕ → ℕ → Option ℕ → (ℕ → Look) → Storage → Option (ℕ × Option Entry)
wait servers index n start_term looks last = do
  ended ← wait_loop servers index n start_term looks 30 0 10 0
  wait_end index n last ended

-- What `start` gives on each server for one turn of `one`: `none` for a server that was crashed, and
-- otherwise an index or an error.
abbrev pub Starts : Type 0
Starts = ℕ → Option (Option ℕ)

abbrev pub started : Bool → Option (Option ℕ) → Option ℕ
started true (some index) = index
started true none = none
started false answer = none

-- The loop over the servers, with `starts` after it.
abbrev pub try_servers : ℕ → (ℕ → Bool) → Starts → ℕ → ℕ → ℕ × Option ℕ
try_servers n connected answers zero starts = (starts, none)
try_servers n connected answers (suc left) starts =
    let next = (starts + 1) % n in
    let rest = try_servers n connected answers left next in
    elim (started (connected next) (answers next)) [ some index ↦ (next, some index) | none ↦ rest ]

-- Whether at least `expected` servers have committed the command at the index.
abbrev pub is_agreed : Entry → ℕ → ℕ × Option Entry → Bool
is_agreed cmd expected (nd, cmd1) = (ltb 0 nd && leb expected nd) && same_entry cmd1 (some cmd)

-- The loop that waits for the agreement, whose storages end when its two seconds are over: whether
-- the command was committed.
abbrev pub await_agreement : Entry → ℕ → ℕ → List Storage → Option Bool
await_agreement cmd expected index [] = some false
await_agreement cmd expected index (s ∷ looks) = do
  decided ← n_committed s index
  if is_agreed cmd expected decided then some true else await_agreement cmd expected index looks

-- One turn of `one`.
pub record Turn : Type 0 where
  pub answers : Starts
  pub looks : List Storage

-- After the wait for the agreement.
abbrev pub on_committed : Bool → Bool → ℕ → Option ℕ → Option ℕ
on_committed committed retry index rest =
    if committed then some index else if not retry then none else rest

-- `one`, whose turns end when its ten seconds are over.
abbrev pub one_loop : ℕ → (ℕ → Bool) → Entry → ℕ → Bool → List Turn → ℕ → Option ℕ
one_loop n connected cmd expected retry [] starts = none
one_loop n connected cmd expected retry (turn ∷ turns) starts =
    let (next, tried) = try_servers n connected turn.answers n starts in
    let rest = one_loop n connected cmd expected retry turns next in
    elim tried [
      | none ↦ rest
      | some index ↦ do
        committed ← await_agreement cmd expected index turn.looks
        on_committed committed retry index rest
    ]

unfoldable pub one : ℕ → (ℕ → Bool) → Entry → ℕ → Bool → List Turn → Option ℕ
one n connected cmd expected retry turns = one_loop n connected cmd expected retry turns 0
