-- ===== src/Base/Order.antt =====
-- Go's order of strings, by bytes: for UTF-8 the order of the characters' numbers.
use Prim.Native.Nat.{Ordering, compare as compare_ℕ}
use Prim.Native.Char.{Char, code}
use Prim.Native.String.compare
use Prim.Native.String.{String, [], ◌∷◌, then, compare}
use mathlib.Core.Path.{◌≡◌, refl, ap, ◌∙◌}
use mathlib.Core.Bool.{Bool, true, false, ◌&&◌, ◌||◌}
use native.Mathlib.Omega.{arith}
use text.Mathlib.TextPositions.{compare_refl}
use text.Mathlib.TextEquality.{Char-path}
use inferbolt.Base.Tests.{ltb, eqb}

abbrev is_lt : Ordering → Bool
is_lt Ordering.lt = true
is_lt _ = false

abbrev is_eq : Ordering → Bool
is_eq Ordering.eq = true
is_eq _ = false

unfoldable pub less : String → String → Bool
less s t = is_lt (compare s t)

then-lt : (o r : Ordering) → is_lt (then o r) ≡ (is_lt o || (is_eq o && is_lt r))
then-lt Ordering.lt r = refl
then-lt Ordering.eq r = refl
then-lt Ordering.gt r = refl

less-nil : (s : String) → less s "" ≡ false
unfolding less
less-nil [] = ap is_lt compare.nil-nil
less-nil (c ∷ s) = ap is_lt (compare.cons-nil c s)

nil-less : (d : Char) (t : String) → less "" (d ∷ t) ≡ true
unfolding less
nil-less d t = ap is_lt (compare.nil-cons d t)

less-cons :
    (c d : Char) (s t : String)
    → less (c ∷ s) (d ∷ t) ≡ (ltb (code c) (code d) || (eqb (code c) (code d) && less s t))
unfolding less
less-cons c d s t =
    ap is_lt (compare.cons-cons c d s t) ∙ then-lt (compare_ℕ (code c) (code d)) (compare s t)

pub less_irrefl : (s : String) → less s s ≡ false
unfolding less
less_irrefl s = ap is_lt (compare_refl s)

pub less_trans : (s t u : String) → less s t ≡ true → less t u ≡ true → less s u ≡ true
less_trans s t [] p q = cc (less-nil t)
less_trans s [] (e ∷ u) p q = cc (less-nil s)
less_trans [] (d ∷ t) (e ∷ u) p q = nil-less e u
less_trans (c ∷ s) (d ∷ t) (e ∷ u) p q =
    ground (arith, less-cons c d s t, less-cons d e t u, less-cons c e s u, less_trans s t u)

-- Two texts, neither of which is less, are one.
pub less_connected : (s t : String) → less s t ≡ false → less t s ≡ false → s ≡ t
less_connected [] [] p q = refl
less_connected [] (d ∷ t) p q = cc (nil-less d t)
less_connected (c ∷ s) [] p q = cc (nil-less c s)
less_connected (c ∷ s) (d ∷ t) p q =
    let same : (code c ≡ code d) × (s ≡ t) =
      ground (arith, p, q, less-cons c d s t, less-cons d c t s, less_connected s t) in
    λ i. Char-path c d same.0 i ∷ same.1 i
