-- ===== src/Linearizability/Model.antt =====
-- crates/linearizability/src/model.rs: values, operations, events and the trait `Model`.
use key_value_distributed_sy.Base.{ℕ, Bool, true, Option, none, some, List, ◌≡◌}
use key_value_distributed_sy.Base.Int.{ℤ}

pub data Value (I O : Type 0) : Type 0 where
  input : I → Value I O
  output : O → Value I O
  nothing : Value I O

module _ {I O : Type 0} where
  -- `Value::input`; `none` is its panic.
  abbrev pub get_input : Value I O → Option I
  get_input (input i) = some i
  get_input (output o) = none
  get_input nothing = none

  -- `Value::output`; `none` is its panic.
  abbrev pub get_output : Value I O → Option O
  get_output (input i) = none
  get_output (output o) = some o
  get_output nothing = none

pub record Operation (I O : Type 0) : Type 0 where
  pub input : I
  pub call : ℤ
  pub output : O
  pub finish : ℤ

pub data EventKind : Type 0 where
  call_event return_event : EventKind

pub record Event (T : Type 0) : Type 0 where
  pub kind : EventKind
  pub value : T
  pub id : ℕ

abbrev pub Operations : Type 0 → Type 0 → Type 0
Operations I O = List (Operation I O)

abbrev pub Events : Type 0 → Type 0 → Type 0
Events I O = List (Event (Value I O))

-- The methods of the trait that the checker calls on one partition. `partition` and
-- `partition_event` are functions of their own, in the module of the model that defines them.
pub record Model (State I O : Type 0) : Type 0 where
  pub init : State
  pub step : State → I → O → Bool × State
  pub equal : State → State → Bool

-- What the checker relies on: states that compare equal are equal.
abbrev pub EqualIsSound : {S I O : Type 0} → Model S I O → Type 0
EqualIsSound {S} m = (s t : S) → m.equal s t ≡ true → s ≡ t
