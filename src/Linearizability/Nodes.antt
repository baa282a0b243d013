-- ===== src/Linearizability/Nodes.antt =====
-- The linked list of crates/linearizability/src/lib.rs: `Node`, `LinkedNodes`, `lift` and `unlift`.
-- An `Rc<RefCell<Node>>` is an address, and the cells stand in a heap with one map for each field.
-- `none` is a panic of `unwrap`. Proofs are in the child modules.
pub mod Chain
pub mod Lift
use key_value_distributed_sy.Base.{
  ◌>>=◌, ℕ, zero, suc, ◌+◌, Option, none, some, ◌==◌, if◌then◌else◌,
}

abbrev pub Ptr : Type 0
Ptr = ℕ

-- Addresses from `fresh` on are not allocated yet.
pub record Heap (V : Type 0) : Type 0 where
  pub fresh : Ptr
  pub value : Ptr → V
  pub matched : Ptr → Option Ptr
  pub id : Ptr → ℕ
  pub next : Ptr → Option Ptr
  pub prev : Ptr → Option Ptr

module _ {A : Type 0} where
  abbrev pub update : (Ptr → A) → Ptr → A → Ptr → A
  update f p v q = if q == p then v else f q

pub record LinkedNodes : Type 0 where
  pub head : Option Ptr

module _ {V : Type 0} where
  abbrev pub set_next : Ptr → Option Ptr → Heap V → Heap V
  set_next p v h = record h { next = update h.next p v }

  abbrev pub set_prev : Ptr → Option Ptr → Heap V → Heap V
  set_prev p v h = record h { prev = update h.prev p v }

  -- `if next.is_some() { next.borrow_mut().prev = v }`
  abbrev pub set_prev_if : Option Ptr → Option Ptr → Heap V → Heap V
  set_prev_if none v h = h
  set_prev_if (some n) v h = set_prev n v h

  -- `Rc::new(RefCell::new(Node { value, matched, id, next: None, prev: None }))`
  abbrev pub alloc : V → Option Ptr → ℕ → Heap V → Ptr × Heap V
  alloc value matched id h = (
    h.fresh,
    record {
      fresh = h.fresh + 1;
      value = update h.value h.fresh value;
      matched = update h.matched h.fresh matched;
      id = update h.id h.fresh id;
      next = update h.next h.fresh none;
      prev = update h.prev h.fresh none;
    },
  )

  unfoldable pub push_front : LinkedNodes → Ptr → Heap V → LinkedNodes × Heap V
  push_front nodes new_head h = elim nodes.head [
    | some old_head ↦ (
      record { head = some new_head },
      set_next new_head (some old_head) (set_prev old_head (some new_head) h),
    )
    | none ↦ (record { head = some new_head }, h)
  ]

  -- The loop of `LinkedNodes::len`, with fuel.
  unfoldable pub len_from : ℕ → Heap V → Option Ptr → ℕ
  len_from zero h entry = 0
  len_from (suc fuel) h none = 0
  len_from (suc fuel) h (some e) = len_from fuel h (h.next e) + 1

  -- No chain is longer than the number of cells.
  unfoldable pub len : LinkedNodes → Heap V → ℕ
  unfolding len_from
  len nodes h = len_from (h.fresh + 1) h nodes.head

  -- The two halves of `lift`: the entry must have a next node, its match need not.
  unfoldable pub take_out : Ptr → Heap V → Option (Heap V)
  take_out x h0 = do
    prev ← h0.prev x
    let h1 = set_next prev (h0.next x) h0
    next ← h1.next x
    some (set_prev next (h1.prev x) h1)

  unfoldable pub take_out_match : Ptr → Heap V → Option (Heap V)
  take_out_match x h0 = do
    prev ← h0.prev x
    let h1 = set_next prev (h0.next x) h0
    some (set_prev_if (h1.next x) (h1.prev x) h1)

  unfoldable pub lift : Ptr → Heap V → Option (Heap V)
  unfolding take_out take_out_match
  lift entry h0 = do h1 ← take_out entry h0; matched ← h1.matched entry; take_out_match matched h1

  -- The two halves of `unlift`, in its order.
  unfoldable pub put_back_match : Ptr → Heap V → Option (Heap V)
  put_back_match x h0 = do
    prev ← h0.prev x
    let h1 = set_next prev (some x) h0
    some (set_prev_if (h1.next x) (some x) h1)

  unfoldable pub put_back : Ptr → Heap V → Option (Heap V)
  put_back x h0 = do
    prev ← h0.prev x
    let h1 = set_next prev (some x) h0
    next ← h1.next x
    some (set_prev next (some x) h1)

  unfoldable pub unlift : Ptr → Heap V → Option (Heap V)
  unfolding put_back_match put_back
  unlift entry h0 = do matched ← h0.matched entry; h1 ← put_back_match matched h0; put_back entry h1
