-- ===== src/Linearizability/Models.antt =====
-- crates/linearizability/src/models.rs: the key-value model. A string is the list of its
-- characters. A `HashMap` is an association list with one entry for each key; the order in which
-- the source iterates over it is unspecified, here it is the order of first insertion.
-- Proofs are in the child modules.
pub mod Keys
pub mod Partition
use key_value_distributed_sy.Base.{
  ◌>>=◌, ℕ, zero, suc, Bool, true, false, Option, none, some, List, [], ◌∷◌, ◌++◌, ◌==◌,
  if◌then◌else◌,
}
use key_value_distributed_sy.Base.Text.{Text, same_text}
use key_value_distributed_sy.Linearizability.Model.{
  Model, Value, get_input, Operation, Operations, EventKind, call_event, return_event, Event,
  Events,
}
use key_value_distributed_sy.Linearizability.Nodes.{update}

pub data Op : Type 0 where
  get put append : Op

pub record KvInput : Type 0 where
  pub op : Op
  pub key : Text
  pub value : Text

pub record KvOutput : Type 0 where
  pub value : Text

abbrev pub step_op : Op → Text → KvInput → KvOutput → Bool × Text
step_op get state input output = (same_text output.value state, state)
step_op put state input output = (true, input.value)
step_op append state input output = (true, state ++ input.value)

abbrev pub kv_model : Model Text KvInput KvOutput
kv_model = record {
  init = [];
  step = λ state input output. step_op input.op state input output;
  equal = same_text;
}

abbrev pub Groups : Type 0 → Type 0
Groups A = List (Text × List A)

module _ {A : Type 0} where
  -- `map.entry(key).or_insert_with(Vec::new).push(a)`
  unfoldable pub push_group : Text → A → Groups A → Groups A
  unfolding same_text
  push_group key a [] = (key, a ∷ []) ∷ []
  push_group key a (g ∷ gs) =
      let rest = g ∷ push_group key a gs in
      if same_text key g.0 then (g.0, g.1 ++ a ∷ []) ∷ gs else rest

  -- The values of the map.
  abbrev pub values : Groups A → List (List A)
  values [] = []
  values (g ∷ gs) = g.1 ∷ values gs

-- The loop of `partition`.
unfoldable pub group_ops :
    Groups (Operation KvInput KvOutput)
    → Operations KvInput KvOutput
    → Groups (Operation KvInput KvOutput)
unfolding push_group
group_ops groups [] = groups
group_ops groups (op ∷ ops) = group_ops (push_group op.input.key op groups) ops

unfoldable pub partition : Operations KvInput KvOutput → List (Operations KvInput KvOutput)
unfolding group_ops
partition history = values (group_ops [] history)

abbrev pub KvEvent : Type 0
KvEvent = Event (Value KvInput KvOutput)

-- The key of an event, by the keys of the calls so far; `none` is a panic.
event_key : EventKind → KvEvent → (ℕ → Option Text) → Option Text
event_key call_event event matched = do input ← get_input event.value; some input.key
event_key return_event event matched = matched event.id

learn : EventKind → ℕ → Text → (ℕ → Option Text) → ℕ → Option Text
learn call_event id key matched = update matched id (some key)
learn return_event id key matched = matched

-- The loop of `partition_event`.
unfoldable pub group_events :
    (ℕ → Option Text) → Groups KvEvent → List KvEvent → Option (Groups KvEvent)
unfolding push_group event_key learn
group_events matched groups [] = some groups
group_events matched groups (event ∷ events) = do
  key ← event_key event.kind event matched
  group_events (learn event.kind event.id key matched) (push_group key event groups) events

unfoldable pub partition_event : List KvEvent → Option (List (List KvEvent))
unfolding group_events
partition_event history = do groups ← group_events (λ _. none) [] history; some (values groups)
