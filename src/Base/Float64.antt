-- ===== src/Base/Float64.antt =====
-- What the program does with a `float64`. The type is a parameter: its arithmetic rounds, and the
-- proofs use only the order laws that hold of every float, NaN included.
use Prim.Native.Nat.{ℕ, ◌+◌, ◌*◌, ◌/◌, ◌^◌}
use mathlib.Core.Path.{◌≡◌}
use mathlib.Core.Bool.{Bool, true, false}
use native.Mathlib.Omega.{arith}
use inferbolt.Base.Int.{
  ℤ, pos, negsuc, pos_part, neg_part, sub_ℕ, ◌+ℤ◌, ◌-ℤ◌, ◌*ℤ◌, ltb_ℤ, leb_ℤ, eqb_ℤ,
}

pub record Float64 (F : Type 0) : Type 0 where
  pub lt : F → F → Bool
  pub le : F → F → Bool
  pub eq : F → F → Bool
  pub add : F → F → F
  pub sub : F → F → F
  pub mul : F → F → F
  pub div : F → F → F
  pub abs : F → F
  -- `decimal m k` is the literal m / 10 ^ k
  pub decimal : ℕ → ℕ → F
  pub of_int : ℤ → F
  -- `int(x)`
  pub trunc : F → ℤ

-- IEEE 754 comparisons: a comparison with NaN is false.
pub record IsOrdered (F : Type 0) ⦃f : Float64 F⦄ : Type 0 where
  pub lt_irrefl : (x : F) → f.lt x x ≡ false
  pub lt_trans : (x y z : F) → f.lt x y ≡ true → f.lt y z ≡ true → f.lt x z ≡ true
  pub le_trans : (x y z : F) → f.le x y ≡ true → f.le y z ≡ true → f.le x z ≡ true
  pub le_of_lt : (x y : F) → f.lt x y ≡ true → f.le x y ≡ true
  pub not-lt_of_le : (x y : F) → f.le x y ≡ true → f.lt y x ≡ false
  pub eq_sym : (x y : F) → f.eq x y ≡ true → f.eq y x ≡ true
  pub eq_trans : (x y z : F) → f.eq x y ≡ true → f.eq y z ≡ true → f.eq x z ≡ true

-- The laws can be met: whole millionths.
abbrev pub micro : ℕ
micro = 1000000

abbrev pub quotient : ℤ → ℕ → ℤ
quotient (pos n) d = pos (n / d)
quotient (negsuc n) d = sub_ℕ 0 ((n + 1) / d)

pub record Micros : Type 0 where
  pub units : ℤ

abbrev pub micros : ℤ → Micros
micros z = record { units = z }

unfoldable pub micros_add : Micros → Micros → Micros
unfolding ◌+ℤ◌
micros_add x y = micros (x.units +ℤ y.units)

unfoldable pub micros_sub : Micros → Micros → Micros
unfolding ◌-ℤ◌
micros_sub x y = micros (x.units -ℤ y.units)

unfoldable pub micros_mul : Micros → Micros → Micros
unfolding ◌*ℤ◌
micros_mul x y = micros (quotient (x.units *ℤ y.units) micro)

divided : ℤ → ℤ → ℤ
unfolding ◌-ℤ◌
divided x (pos d) = quotient x d
divided x (negsuc d) = pos 0 -ℤ quotient x (d + 1)

unfoldable pub micros_div : Micros → Micros → Micros
unfolding ◌*ℤ◌ divided
micros_div x y = micros (divided (x.units *ℤ pos micro) y.units)

unfoldable pub micros_of_int : ℤ → Micros
unfolding ◌*ℤ◌
micros_of_int z = micros (z *ℤ pos micro)

instance abbrev pub micros_float : Float64 Micros
micros_float = record {
  lt = λ x y. ltb_ℤ x.units y.units;
  le = λ x y. leb_ℤ x.units y.units;
  eq = λ x y. eqb_ℤ x.units y.units;
  add = micros_add;
  sub = micros_sub;
  mul = micros_mul;
  div = micros_div;
  abs = λ x. micros (pos (pos_part x.units + neg_part x.units));
  decimal = λ m k. micros (pos (m * micro / 10 ^ k));
  of_int = micros_of_int;
  trunc = λ x. quotient x.units micro;
}

pub Micros-IsOrdered : IsOrdered Micros
Micros-IsOrdered = record {
  lt_irrefl = λ x. ground arith;
  lt_trans = λ x y z h k. ground arith;
  le_trans = λ x y z h k. ground arith;
  le_of_lt = λ x y h. ground arith;
  not-lt_of_le = λ x y h. ground arith;
  eq_sym = λ x y h. ground arith;
  eq_trans = λ x y z h k. ground arith;
}
