-- ===== src/Base/Texts.antt =====
-- Texts and numbers as the program prints them.
use Prim.Native.Nat.{ℕ, zero, suc, ◌/◌, ◌%◌, ◌≤◌}
use text.Mathlib.TextPositions.{len-append}
use Prim.Native.String.{String, ◌++◌, len}
use mathlib.Core.Bool.{Bool, true, false, ◌||◌}
use mathlib.Core.Path.{◌≡◌, ap, refl}
use mathlib.Core.Logic.{◌≢◌, ◌⊎◌}
use mathlib.Core.List.{List, [], ◌∷◌}
use native.Mathlib.Omega.{arith}
use text.Mathlib.Text.{◌==◌}
use text.Mathlib.TextEquality.{eq_iff}
use inferbolt.Base.Tests.{eqb, ltb, if◌then◌else◌}

abbrev pub concat : String → String → String
concat a b = a ++ b

-- `strings.Join`
abbrev pub join : String → List String → String
join sep [] = ""
join sep (s ∷ []) = s
join sep (s ∷ rest) = concat s (concat sep (join sep rest))

-- A `map[string]bool` literal, and a set built from a slice.
abbrev pub contains : List String → String → Bool
contains [] s = false
contains (x ∷ xs) s = x == s || contains xs s

pub ==_self : (s : String) → (s == s) ≡ true
==_self s = ground (arith, eq_iff s s)

pub ==_ne : (s t : String) → s ≢ t → (s == t) ≡ false
==_ne s t h = ground (arith, eq_iff s t)

-- To be one of the texts of a list.
abbrev pub OneOf : List String → String → Type 0
OneOf [] s = ⊥
OneOf (x ∷ []) s = x ≡ s
OneOf (x ∷ y ∷ rest) s = (x ≡ s) ⊎ OneOf (y ∷ rest) s

pub contains-OneOf : (xs : List String) (s : String) → contains xs s ≡ true → OneOf xs s
contains-OneOf [] s h = cc
contains-OneOf (x ∷ []) s h = ground (arith, eq_iff x s)
contains-OneOf (x ∷ y ∷ rest) s h = ground (arith, eq_iff x s, contains-OneOf (y ∷ rest) s)

pub OneOf-contains : (xs : List String) (s : String) → OneOf xs s → contains xs s ≡ true
OneOf-contains [] s h = absurd h
OneOf-contains (x ∷ []) s h = ground (arith, eq_iff x s)
OneOf-contains (x ∷ y ∷ rest) s h = ground (arith, eq_iff x s, OneOf-contains (y ∷ rest) s)

-- The digits of a number in base ten; each step drops one, so a number has fewer than itself and
-- one.
abbrev pub digit_text : ℕ → String
digit_text n =
    if eqb n 0
    then "0"
    else if eqb n 1
    then "1"
    else if eqb n 2
    then "2"
    else if eqb n 3
    then "3"
    else if eqb n 4
    then "4"
    else if eqb n 5
    then "5"
    else if eqb n 6
    then "6"
    else if eqb n 7
    then "7"
    else if eqb n 8
    then "8"
    else "9"

unfoldable pub digits : ℕ → ℕ → String
digits zero n = ""
digits (suc fuel) n =
    let front : String = digits fuel (n / 10) in
    if ltb n 10 then digit_text n else concat front (digit_text (n % 10))

unfoldable pub decimal_text : ℕ → String
unfolding digits
decimal_text n = digits (suc n) n

one_char : (s t : String) (b : Bool) → len s ≡ 1 → len t ≡ 1 → len (if b then s else t) ≡ 1
one_char s t true h k = h
one_char s t false h k = k

len-digit_text : (n : ℕ) → len (digit_text n) ≡ 1
len-digit_text n = one_char _ _ (eqb n 0) refl (
    one_char _ _ (eqb n 1) refl (
      one_char _ _ (eqb n 2) refl (
        one_char _ _ (eqb n 3) refl (
          one_char _ _ (eqb n 4) refl (
            one_char _ _ (eqb n 5) refl (
              one_char _ _ (eqb n 6) refl
                (one_char _ _ (eqb n 7) refl (one_char _ _ (eqb n 8) refl refl))))))))

len-digits : (fuel n : ℕ) → 1 ≤ len (digits (suc fuel) n)
unfolding digits
len-digits fuel n = ground (
  arith,
  len-append (digits fuel (n / 10)) (digit_text (n % 10)),
  len-digit_text n,
  len-digit_text (n % 10),
)

-- A number has digits.
pub decimal_text-nonempty : (n : ℕ) → (decimal_text n == "") ≡ false
unfolding decimal_text
decimal_text-nonempty n =
    ==_ne (digits (suc n) n) "" (λ e. ground (arith, len-digits n n, ap len e))

-- Two literals.
pub apart : (a b : String) → (a == b) ≡ false → a ≢ b
apart a b h e = ground (arith, eq_iff a b)
