-- ===== src/Base/Windows.antt =====
-- Sliding windows of time: the times within `w` before `now`.
use Prim.Native.Nat.{ℕ, ◌+◌, ◌≤◌}
use mathlib.Core.Path.{◌≡◌, refl}
use mathlib.Core.Bool.{Bool}
use mathlib.Core.List.{List, [], ◌∷◌, ◌++◌}
use native.Mathlib.Omega.{arith}
use sol_gateway_dcc.Base.{ltb, filterb}

abbrev pub within : ℕ → ℕ → ℕ → Bool
within w now t = ltb now (t + w)

pub filterb-append :
    (p : ℕ → Bool) (xs ys : List ℕ) → filterb p (xs ++ ys) ≡ filterb p xs ++ filterb p ys
filterb-append p [] ys = refl
filterb-append p (x ∷ xs) ys = ground (arith, filterb-append p xs ys)

-- A later window is within an earlier one.
pub filterb_later :
    (w t now : ℕ) (xs : List ℕ)
    → t ≤ now
    → filterb (within w now) (filterb (within w t) xs) ≡ filterb (within w now) xs
filterb_later w t now [] h = refl
filterb_later w t now (x ∷ xs) h = ground (arith, filterb_later w t now xs h)
