-- ===== src/Base/Decimals.antt =====
-- Texts of numbers in base ten, also behind a colon.
use Prim.Native.Nat.{ℕ, zero, suc, ◌+◌, ◌-◌, ◌*◌, ◌/◌, ◌%◌, ◌<◌}
use Prim.Native.Char.{Char, code}
use Prim.Native.String.{String, [], ◌∷◌, ◌++◌}
use mathlib.Core.Path.{◌≡◌, refl, sym, ap, ◌∙◌}
use mathlib.Core.Bool.{Bool, true, false, ◌||◌}
use mathlib.Core.Logic.{◌≢◌, inl, inr}
use native.Mathlib.Omega.{arith}
use text.Mathlib.TextLemmas.{nil-append, cons-append, head-eq_of_cons-eq, tail-eq_of_cons-eq}
use inferbolt.Base.Tests.{eqb, ltb, Bool-cases}
use inferbolt.Base.Texts.{concat, digit_text, digits, decimal_text}

-- The number that a text of digits shows, behind a first part.
value : ℕ → String → ℕ
value acc [] = acc
value acc (c ∷ s) = value (acc * 10 + (code c - 48)) s

value-append : (s t : String) (acc : ℕ) → value acc (s ++ t) ≡ value (value acc s) t
unfolding value
value-append [] t acc = ap (value acc) (nil-append t)
value-append (c ∷ s) t acc =
    ap (value acc) (cons-append c s t) ∙ value-append s t (acc * 10 + (code c - 48))

-- A digit is one character, which shows it.
digit_char : (n : ℕ) → n < 10 → (c : Char) × (digit_text n ≡ c ∷ []) × (code c ≡ 48 + n)
digit_char zero h = ("0", refl, refl)
digit_char (suc zero) h = ("1", refl, refl)
digit_char (suc (suc zero)) h = ("2", refl, refl)
digit_char (suc (suc (suc zero))) h = ("3", refl, refl)
digit_char (suc (suc (suc (suc zero)))) h = ("4", refl, refl)
digit_char (suc (suc (suc (suc (suc zero))))) h = ("5", refl, refl)
digit_char (suc (suc (suc (suc (suc (suc zero)))))) h = ("6", refl, refl)
digit_char (suc (suc (suc (suc (suc (suc (suc zero))))))) h = ("7", refl, refl)
digit_char (suc (suc (suc (suc (suc (suc (suc (suc zero)))))))) h = ("8", refl, refl)
digit_char (suc (suc (suc (suc (suc (suc (suc (suc (suc zero))))))))) h = ("9", refl, refl)
digit_char (suc (suc (suc (suc (suc (suc (suc (suc (suc (suc n)))))))))) h = absurd (omega arith)

value-digit_text : (n acc : ℕ) → n < 10 → value acc (digit_text n) ≡ acc * 10 + n
unfolding value
value-digit_text n acc h = let (c, e, k) = digit_char n h in rw e (ground (arith, k))

value-digits : (fuel n : ℕ) → n < fuel → value 0 (digits fuel n) ≡ n
unfolding digits
value-digits zero n h = absurd (omega arith)
value-digits (suc fuel) n h = elim (Bool-cases (ltb n 10)) [
  | inl e ↦ rw e (value-digit_text n 0 (ground (arith, e)) ∙ omega arith)
  | inr e ↦ rw e (
      value-append (digits fuel (n / 10)) (digit_text (n % 10)) 0
      ∙ value-digit_text (n % 10) (value 0 (digits fuel (n / 10))) (ground arith)
      ∙ ground (arith, e, value-digits fuel (n / 10) (ground (arith, e))))
]

has_colon : String → Bool
has_colon [] = false
has_colon (c ∷ s) = eqb (code c) 58 || has_colon s

has_colon-append : (s t : String) → has_colon (s ++ t) ≡ (has_colon s || has_colon t)
unfolding has_colon
has_colon-append [] t = ap has_colon (nil-append t)
has_colon-append (c ∷ s) t = rw (cons-append c s t, has_colon-append s t) (ground arith)

has_colon-digit_text : (n : ℕ) → n < 10 → has_colon (digit_text n) ≡ false
unfolding has_colon
has_colon-digit_text n h = let (c, e, k) = digit_char n h in rw e (ground (arith, k))

has_colon-digits : (fuel n : ℕ) → has_colon (digits fuel n) ≡ false
unfolding digits has_colon
has_colon-digits zero n = refl
has_colon-digits (suc fuel) n = elim (Bool-cases (ltb n 10)) [
  | inl e ↦ rw e (has_colon-digit_text n (ground (arith, e)))
  | inr e ↦ rw e (
      has_colon-append (digits fuel (n / 10)) (digit_text (n % 10))
      ∙ ground
          (arith, has_colon-digits fuel (n / 10), has_colon-digit_text (n % 10) (ground arith)))
]

colon_first : (d : String) → concat ":" d ≡ ":" ∷ d
colon_first d = cons-append ":" [] d ∙ ap (λ t. ":" ∷ t) (nil-append d)

has_colon-behind : (b e : String) → has_colon (concat b (concat ":" e)) ≡ true
unfolding has_colon
has_colon-behind b e = has_colon-append b (concat ":" e) ∙ rw (colon_first e) (ground arith)

colon_alone :
    (x : Char) (b d e : String)
    → has_colon d ≡ false
    → concat "" (concat ":" d) ≢ concat (x ∷ b) (concat ":" e)
colon_alone x b d e p h = ground (
  arith,
  p,
  ap has_colon (
      tail-eq_of_cons-eq
        (sym (nil-append (concat ":" d) ∙ colon_first d) ∙ h ∙ cons-append x b (concat ":" e))),
  has_colon-behind b e,
)

-- What stands before the last colon, and behind it.
last_colon :
    (a b d e : String)
    → has_colon d ≡ false
    → has_colon e ≡ false
    → concat a (concat ":" d) ≡ concat b (concat ":" e)
    → (a ≡ b) × (d ≡ e)
last_colon [] [] d e p q h = (
  refl,
  tail-eq_of_cons-eq (
      sym (nil-append (concat ":" d) ∙ colon_first d)
      ∙ h
      ∙ nil-append (concat ":" e)
      ∙ colon_first e),
)
last_colon [] (x ∷ b) d e p q h = absurd (colon_alone x b d e p h)
last_colon (c ∷ a) [] d e p q h = absurd (colon_alone c a e d q (sym h))
last_colon (c ∷ a) (x ∷ b) d e p q h =
    let k = sym (cons-append c a (concat ":" d)) ∙ h ∙ cons-append x b (concat ":" e) in
    let (same, rest) = last_colon a b d e p q (tail-eq_of_cons-eq k) in
    (λ i. head-eq_of_cons-eq k i ∷ same i, rest)

-- A text with a number behind a colon tells both.
pub labelled_apart :
    (a b : String) (m n : ℕ)
    → concat a (concat ":" (decimal_text m)) ≡ concat b (concat ":" (decimal_text n))
    → (a ≡ b) × (m ≡ n)
unfolding decimal_text
labelled_apart a b m n h =
    let (same, shown) =
      last_colon a b (digits (suc m) m) (digits (suc n) n) (has_colon-digits (suc m) m)
        (has_colon-digits (suc n) n) h in
    (
      same,
      sym (value-digits (suc m) m (omega arith))
          ∙ ap (value 0) shown
          ∙ value-digits (suc n) n (omega arith),
    )
