-- ===== src/Prelude/Ints.antt =====
-- The integers over the native numbers, and their tests.
use Prim.Native.Nat.{ℕ, ◌<◌}
use mathlib.Core.Path.{◌≡◌, refl}
use mathlib.Core.Logic.{◌⊎◌, ◌↔◌, inl, inr}
use mathlib.Core.Bool.{Bool, true, false}
use native.Mathlib.Omega.{arith}
use go_dcp.Prelude.Tests.{ltb, ◌==◌}

pub data ℤ : Type 0 where
  pos : ℕ → ℤ
  negsuc : ℕ → ℤ

abbrev pub ltb_ℤ : ℤ → ℤ → Bool
ltb_ℤ (pos a) (pos b) = ltb a b
ltb_ℤ (pos a) (negsuc b) = false
ltb_ℤ (negsuc a) (pos b) = true
ltb_ℤ (negsuc a) (negsuc b) = ltb b a

abbrev pub eq_ℤ : ℤ → ℤ → Bool
eq_ℤ (pos a) (pos b) = a == b
eq_ℤ (pos a) (negsuc b) = false
eq_ℤ (negsuc a) (pos b) = false
eq_ℤ (negsuc a) (negsuc b) = a == b

infix 50 ◌<ℤ◌
abbrev pub ◌<ℤ◌ : ℤ → ℤ → Type 0
pos a <ℤ pos b = a < b
pos a <ℤ negsuc b = ⊥
negsuc a <ℤ pos b = Unit
negsuc a <ℤ negsuc b = b < a

pub ltb_ℤ_iff : (a b : ℤ) → (ltb_ℤ a b ≡ true) ↔ (a <ℤ b)
ltb_ℤ_iff (pos a) (pos b) = ground arith
ltb_ℤ_iff (pos a) (negsuc b) = ground arith
ltb_ℤ_iff (negsuc a) (pos b) = ground arith
ltb_ℤ_iff (negsuc a) (negsuc b) = ground arith

pub eq_ℤ_iff : (a b : ℤ) → (eq_ℤ a b ≡ true) ↔ (a ≡ b)
eq_ℤ_iff (pos a) (pos b) = ground arith
eq_ℤ_iff (pos a) (negsuc b) = ground arith
eq_ℤ_iff (negsuc a) (pos b) = ground arith
eq_ℤ_iff (negsuc a) (negsuc b) = ground arith

-- Of two integers, one is less by the test and not the other way round, or they are the same.
pub ltb_ℤ-order :
    (a b : ℤ)
    → ((ltb_ℤ a b ≡ true) × (ltb_ℤ b a ≡ false) × (eq_ℤ a b ≡ false))
      ⊎ ((a ≡ b) × (ltb_ℤ a b ≡ false) × (ltb_ℤ b a ≡ false) × (eq_ℤ a b ≡ true))
      ⊎ ((ltb_ℤ a b ≡ false) × (ltb_ℤ b a ≡ true) × (eq_ℤ a b ≡ false))
ltb_ℤ-order (pos a) (pos b) = ground arith
ltb_ℤ-order (pos a) (negsuc b) = inr (inr (refl, refl, refl))
ltb_ℤ-order (negsuc a) (pos b) = inl (refl, refl, refl)
ltb_ℤ-order (negsuc a) (negsuc b) = ground arith
