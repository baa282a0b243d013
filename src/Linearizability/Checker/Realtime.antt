-- ===== src/Linearizability/Checker/Realtime.antt =====
-- Linearizations of operations in real time, with no entries.
use key_value_distributed_sy.Base.{
  ℕ, ◌+◌, ◌≡◌, Bool, true, false, ◌&&◌, List, [], ◌∷◌, ◌==◌, ◌⊎◌, ltb, not, keep, if◌then◌else◌,
}
use key_value_distributed_sy.Base.Int.{leb_ℤ}
use key_value_distributed_sy.Linearizability.Model.{Model, Operation, Operations}

module _ {I O : Type 0} where
  -- The operations with their positions in the history.
  abbrev pub number : ℕ → Operations I O → List (ℕ × Operation I O)
  number k [] = []
  number k (op ∷ ops) = (k, op) ∷ number (k + 1) ops

  abbrev pub Among : (ℕ × Operation I O) → List (ℕ × Operation I O) → Type 0
  Among p [] = ⊥
  Among p (q ∷ qs) = (p ≡ q) ⊎ Among p qs

  -- Whether `p` returns before `q` is called. Of a return and a call at the same time, the one whose
  -- operation stands first in the history is the first.
  abbrev pub precedes : (ℕ × Operation I O) → (ℕ × Operation I O) → Bool
  precedes (k, p) (l, q) = if leb_ℤ q.call p.finish then leb_ℤ p.finish q.call && ltb k l else true

  abbrev pub without : ℕ → List (ℕ × Operation I O) → List (ℕ × Operation I O)
  without k = keep (λ p. not (p.0 == k))

-- `order` explains the operations from the state `s`: again and again an operation takes effect that
-- none of those left precedes, and the model accepts its output, until none is left.
pub data Explains {S I O : Type 0} (m : Model S I O)
    : S → List (ℕ × Operation I O) → List ℕ → Type 0 where
  nothing_left : {s : S} → Explains m s [] []
  effect :
      {s s' : S} {ps : List (ℕ × Operation I O)} {ks : List ℕ} (p : ℕ × Operation I O)
      → Among p ps
      → ((q : ℕ × Operation I O) → Among q ps → precedes q p ≡ false)
      → m.step s p.1.input p.1.output ≡ (true, s')
      → Explains m s' (without p.0 ps) ks
      → Explains m s ps (p.0 ∷ ks)

-- Some order of the operations, in agreement with their calls and returns, explains all outputs.
abbrev pub IsLinear : {S I O : Type 0} → Model S I O → Operations I O → Type 0
IsLinear m ops = (order : List ℕ) × Explains m m.init (number 0 ops) order
