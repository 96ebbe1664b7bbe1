-- ===== src/Common/Int.antt =====
-- Go's signed integers, where no operation on them can overflow: integers over the native numbers.
use Prim.Native.Nat.{ℕ, ◌<◌}
use mathlib.Core.Path.{◌≡◌}
use mathlib.Core.Logic.{◌↔◌, ◌⊎◌}
use mathlib.Core.Bool.{Bool, true, false}
use native.Mathlib.Omega.{arith}
use gitlab_fleet_governor.Common.Tests.{ltb, nat_beq}
use gitlab_fleet_governor.Common.Equality.{Eq}

-- `negsuc n` is -(n + 1).
pub data ℤ : Type 0 where
  pos : ℕ → ℤ
  negsuc : ℕ → ℤ

abbrev pub int_beq : ℤ → ℤ → Bool
int_beq (pos a) (pos b) = nat_beq a b
int_beq (pos a) (negsuc b) = false
int_beq (negsuc a) (pos b) = false
int_beq (negsuc a) (negsuc b) = nat_beq a b

abbrev pub ltb_ℤ : ℤ → ℤ → Bool
ltb_ℤ (pos a) (pos b) = ltb a b
ltb_ℤ (pos a) (negsuc b) = false
ltb_ℤ (negsuc a) (pos b) = true
ltb_ℤ (negsuc a) (negsuc b) = ltb b a

infix 50 ◌<ℤ◌
abbrev pub ◌<ℤ◌ : ℤ → ℤ → Type 0
pos a <ℤ pos b = a < b
pos a <ℤ negsuc b = ⊥
negsuc a <ℤ pos b = Unit
negsuc a <ℤ negsuc b = b < a

pub int_beq_iff : (a b : ℤ) → (int_beq a b ≡ true) ↔ (a ≡ b)
int_beq_iff a b = ground arith

pub ltb_ℤ_iff : (a b : ℤ) → (ltb_ℤ a b ≡ true) ↔ (a <ℤ b)
ltb_ℤ_iff (pos a) (pos b) = ground arith
ltb_ℤ_iff (pos a) (negsuc b) = ground arith
ltb_ℤ_iff (negsuc a) (pos b) = ground arith
ltb_ℤ_iff (negsuc a) (negsuc b) = ground arith

pub ltb_ℤ_trans : (a b c : ℤ) → ltb_ℤ a b ≡ true → ltb_ℤ b c ≡ true → ltb_ℤ a c ≡ true
ltb_ℤ_trans (pos a) (pos b) (pos c) h k = ground arith
ltb_ℤ_trans (negsuc a) (negsuc b) (negsuc c) h k = ground arith
ltb_ℤ_trans a b c h k = ground arith

pub ltb_ℤ_total : (a b : ℤ) → (a ≡ b) ⊎ ((ltb_ℤ a b ≡ true) ⊎ (ltb_ℤ b a ≡ true))
ltb_ℤ_total a b = ground arith

pub ltb_ℤ_asymm : (a b : ℤ) → ltb_ℤ a b ≡ true → ltb_ℤ b a ≡ false
ltb_ℤ_asymm a b h = ground arith

instance abbrev pub int_eq : Eq ℤ
int_eq = record { same = int_beq; same_iff = int_beq_iff }
