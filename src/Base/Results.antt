-- ===== src/Base/Results.antt =====
-- Rust's `Result`, for the pure functions that fail with a value.
use Prim.Native.Nat.{ℕ}
use mathlib.Core.Bool.{Bool}

pub data Result {ℓ κ} (A : Type ℓ) (E : Type κ) : Type (ℓ ⊔ κ) where
  ok : A → Result A E
  err : E → Result A E

-- Which statements or locks of a handler fail: one flag for each, numbered in program order.
abbrev pub Faults : Type 0
Faults = ℕ → Bool
