-- ===== src/Base/Bits.antt =====
-- Masks on one byte as arithmetic, checked value by value.
use Prim.Native.Nat.{ℕ, zero, suc, ◌<◌}
use mathlib.Core.Path.{◌≡◌}
use mathlib.Core.Bool.{Bool, true, ◌&&◌}
use native.Mathlib.Omega.{arith}

-- A claim about every number below a bound, as a run.
unfoldable pub holds_below : ℕ → (ℕ → Bool) → Bool
holds_below zero p = true
holds_below (suc n) p = p n && holds_below n p

pub holds_below_sound :
    (n : ℕ) (p : ℕ → Bool) → holds_below n p ≡ true → (x : ℕ) → x < n → p x ≡ true
unfolding holds_below
holds_below_sound zero p e x h = absurd (omega arith)
holds_below_sound (suc n) p e x h = ground (arith, holds_below_sound n p (ground arith) x)
