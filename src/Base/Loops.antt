-- ===== src/Base/Loops.antt =====
-- Loops over `0..n`, and arrays as functions from indices.
use key_value_distributed_sy.Base.{ℕ, zero, suc, ◌==◌, if◌then◌else◌}

-- `for k in 0..n`, first with `k = 0`.
abbrev pub each : {S : Type 0} → ℕ → (ℕ → S → S) → S → S
each zero f s = s
each (suc k) f s = f k (each k f s)

abbrev pub put : {A : Type 0} → (ℕ → A) → ℕ → A → ℕ → A
put f i a k = if k == i then a else f k
