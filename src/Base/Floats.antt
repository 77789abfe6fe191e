-- ===== src/Base/Floats.antt =====
-- Python's `float`, which antt does not have: its operations and tests as an interface, with the
-- laws of the order that IEEE 754 comparisons have for all values, NaN included. No law of the
-- arithmetic is assumed. Division by zero is the caller's to guard.
use Prim.Native.Nat.{ℕ, ◌/◌, suc}
use mathlib.Core.Path.{◌≡◌}
use mathlib.Core.Bool.{Bool, true, false}
use native.Mathlib.Omega.{arith}
use kis_api_trend_atr.Base.Int.{ℤ, pos, negsuc, ◌+ℤ◌, ◌-ℤ◌, ◌*ℤ◌, ltb_ℤ, leb_ℤ, sub_ℕ}

pub record Floats (A : Type 0) : Type 0 where
  -- the number nearest to a whole number
  pub of_nat : ℕ → A
  pub add : A → A → A
  pub sub : A → A → A
  pub mul : A → A → A
  pub div : A → A → A
  -- `a < b` and `a <= b`
  pub lt : A → A → Bool
  pub le : A → A → Bool
  pub lt_irrefl : (a : A) → lt a a ≡ false
  pub le_of_lt : (a b : A) → lt a b ≡ true → le a b ≡ true
  pub lt_not_le : (a b : A) → lt a b ≡ true → le b a ≡ false
  pub le_trans : (a b c : A) → le a b ≡ true → le b c ≡ true → le a c ≡ true
  pub lt_of_lt_le : (a b c : A) → lt a b ≡ true → le b c ≡ true → lt a c ≡ true
  pub lt_of_le_lt : (a b c : A) → le a b ≡ true → lt b c ≡ true → lt a c ≡ true

module _ {A : Type 0} ⦃f : Floats A⦄ where
  pub lt_asymm : (a b : A) → f.lt a b ≡ true → f.lt b a ≡ false
  lt_asymm a b h = ground (arith, f.lt_not_le a b h, f.le_of_lt b a)

  pub lt_trans_not : (a b c : A) → f.lt a b ≡ true → f.lt a c ≡ false → f.lt b c ≡ false
  lt_trans_not a b c h k = ground (arith, f.lt_of_lt_le a b c h, f.le_of_lt b c)

  pub not_lt_trans : (a b c : A) → f.lt b a ≡ true → f.lt c a ≡ false → f.lt c b ≡ false
  not_lt_trans a b c h k = ground (arith, f.lt_of_le_lt c b a, f.le_of_lt c b)

abbrev quotient_ℤ : ℤ → ℤ → ℤ
quotient_ℤ (pos a) (pos b) = pos (a / b)
quotient_ℤ (pos a) (negsuc b) = sub_ℕ 0 (a / suc b)
quotient_ℤ (negsuc a) (pos b) = sub_ℕ 0 (suc a / b)
quotient_ℤ (negsuc a) (negsuc b) = pos (suc a / suc b)

pub int_lt_irrefl : (a : ℤ) → ltb_ℤ a a ≡ false
int_lt_irrefl a = ground arith

pub int_le_of_lt : (a b : ℤ) → ltb_ℤ a b ≡ true → leb_ℤ a b ≡ true
int_le_of_lt a b h = ground arith

pub int_lt_not_le : (a b : ℤ) → ltb_ℤ a b ≡ true → leb_ℤ b a ≡ false
int_lt_not_le a b h = ground arith

pub int_le_trans : (a b c : ℤ) → leb_ℤ a b ≡ true → leb_ℤ b c ≡ true → leb_ℤ a c ≡ true
int_le_trans a b c h k = ground arith

pub int_lt_of_lt_le : (a b c : ℤ) → ltb_ℤ a b ≡ true → leb_ℤ b c ≡ true → ltb_ℤ a c ≡ true
int_lt_of_lt_le a b c h k = ground arith

pub int_lt_of_le_lt : (a b c : ℤ) → leb_ℤ a b ≡ true → ltb_ℤ b c ≡ true → ltb_ℤ a c ≡ true
int_lt_of_le_lt a b c h k = ground arith

-- The integers have such operations: the interface can be met.
instance abbrev pub int_floats : Floats ℤ
int_floats = record {
  of_nat = pos;
  add = ◌+ℤ◌;
  sub = ◌-ℤ◌;
  mul = ◌*ℤ◌;
  div = quotient_ℤ;
  lt = ltb_ℤ;
  le = leb_ℤ;
  lt_irrefl = int_lt_irrefl;
  le_of_lt = int_le_of_lt;
  lt_not_le = int_lt_not_le;
  le_trans = int_le_trans;
  lt_of_lt_le = int_lt_of_lt_le;
  lt_of_le_lt = int_lt_of_le_lt;
}
