-- ===== src/Linearizability/Threads.antt =====
-- crates/linearizability/src/lib.rs: `check_operations_timeout`, `check_events_timeout` and
-- `wait_res`. The threads' answers are messages in the order in which they arrive. A thread whose
-- answer is received has never read a set flag, since only `wait_res` sets it, when it stops
-- receiving; so the runs are with the flag unset. Proofs are in the child module.
pub mod Answers
use key_value_distributed_sy.Base.{
  ℕ, zero, suc, Bool, true, false, ◌&&◌, not, List, [], ◌∷◌, ◌++◌, ◌==◌, if◌then◌else◌, length,
}
use key_value_distributed_sy.Linearizability.Model.{Model, Operations, Events}
use key_value_distributed_sy.Linearizability.Entries.{
  from_entries, make_entries, renumber, convert_entries, Built,
}
use key_value_distributed_sy.Linearizability.Search.{
  Run, finished, panic, out_of_fuel, check_single,
}

-- What `rx.recv` or `rx.recv_timeout` gives.
pub data Received : Type 0 where
  result : Bool → Received
  timed_out disconnected : Received

-- How `wait_res` ends: with `ok`, and with the flag set or not; in a panic; or it never ends.
pub data Waited : Type 0 where
  answer : Bool → Bool → Waited
  panicked waiting : Waited

-- The decrement of `count`, checked as in a debug build, and what follows it.
after_result : (ℕ → Waited) → ℕ → Waited
after_result more zero = panicked
after_result more (suc count) =
    let rest = more count in if count == 0 then answer true false else rest

-- `has_sender` is whether a sender is left when no message comes any more: `recv` waits then, and
-- fails without one.
unfoldable pub wait_res : List Received → Bool → ℕ → Bool → Waited
unfolding after_result
wait_res [] has_sender count ok = if has_sender then waiting else panicked
wait_res (timed_out ∷ ms) has_sender count ok = answer ok false
wait_res (disconnected ∷ ms) has_sender count ok = panicked
wait_res (result res ∷ ms) has_sender count ok =
    let ok' : Bool = ok && res in
    let rest = after_result (λ c. wait_res ms has_sender c ok') count in
    if not ok' then answer false true else rest

-- A thread that panics, or does not end, sends nothing.
abbrev pub sent : Run → List Received
sent (finished b) = result b ∷ []
sent panic = []
sent out_of_fuel = []

abbrev pub sent_all : List Run → List Received
sent_all [] = []
sent_all (r ∷ rs) = sent r ++ sent_all rs

-- What comes of an answer when a thread does not end well.
abbrev pub stopped_by : Waited → Waited → Waited
stopped_by how (answer ok kill) = how
stopped_by how panicked = panicked
stopped_by how waiting = waiting

-- `handle.join().unwrap()` for each thread, after `wait_res`. A thread that ends with the flag unset
-- also ends once it is set.
abbrev pub joined : List Run → Waited → Waited
joined [] res = res
joined (finished b ∷ runs) res = joined runs res
joined (panic ∷ runs) res = stopped_by panicked res
joined (out_of_fuel ∷ runs) res = stopped_by waiting res

-- The caller's own sender `tx` is there as long as `wait_res` runs.
abbrev pub tx_left : Bool
tx_left = true

abbrev pub each : {A B : Type 0} → (A → B) → List A → List B
each f [] = []
each f (x ∷ xs) = f x ∷ each f xs

module _ {S I O : Type 0} (m : Model S I O) where
  -- What the threads of `check_operations_timeout` run.
  abbrev pub check_built : Built I O → Run
  check_built b = check_single m b.nodes b.heap (λ _. false)

  -- With a timeout of zero; `partition` gives the parts in the order in which they are answered.
  unfoldable pub check_operations :
      (Operations I O → List (Operations I O)) → Operations I O → Waited
  unfolding wait_res check_single
  check_operations partition history =
      let partitions = partition history in
      let runs = each (λ sub. check_built (from_entries (make_entries sub))) partitions in
      joined runs (wait_res (sent_all runs) tx_left (length partitions) true)

  unfoldable pub check_events : (Events I O → List (Events I O)) → Events I O → Waited
  unfolding wait_res check_single
  check_events partition_event history =
      let partitions = partition_event history in
      let runs =
        each (λ sub. check_built (from_entries (convert_entries (renumber sub)))) partitions in
      joined runs (wait_res (sent_all runs) tx_left (length partitions) true)
