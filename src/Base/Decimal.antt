-- ===== src/Base/Decimal.antt =====
-- `str(n)` and `int(text)` of Python's integers, in decimal.
use Prim.Native.Nat.{ℕ, zero, suc, ◌+◌, ◌-◌, ◌*◌, ◌/◌, ◌%◌, ◌^◌, ◌≤◌, ◌<◌}
use Prim.Native.Char.{Char, code}
use Prim.Native.String.{String, ◌++◌ as ◌<>◌}
use mathlib.Core.Path.{◌≡◌, refl, ap, ◌∙◌}
use mathlib.Core.Bool.{Bool, true, ◌&&◌}
use mathlib.Core.Logic.{inl, inr}
use mathlib.Core.Option.{Option, none, some}
use native.Mathlib.Omega.{arith}
use native.Mathlib.Nat.{pow-suc}
use deixic_python.Base.Tests.{leb, ltb, if◌then◌else◌, Bool-cases}
use deixic_python.Base.Text.{text_length, truthy}
use deixic_python.Base.Int.{ℤ, pos, negsuc}

digit_char : ℕ → Char
digit_char zero = "0"
digit_char (suc zero) = "1"
digit_char (suc (suc zero)) = "2"
digit_char (suc (suc (suc zero))) = "3"
digit_char (suc (suc (suc (suc zero)))) = "4"
digit_char (suc (suc (suc (suc (suc zero))))) = "5"
digit_char (suc (suc (suc (suc (suc (suc zero)))))) = "6"
digit_char (suc (suc (suc (suc (suc (suc (suc zero))))))) = "7"
digit_char (suc (suc (suc (suc (suc (suc (suc (suc zero)))))))) = "8"
digit_char (suc (suc (suc (suc (suc (suc (suc (suc (suc n))))))))) = "9"

-- The digits of a number in front of a text; the fuel bounds the number of digits.
emit : ℕ → ℕ → String → String
emit zero n out = out
emit (suc fuel) n out =
    let rest = emit fuel (n / 10) (String.◌∷◌ (digit_char (n % 10)) out) in
    if ltb n 10 then String.◌∷◌ (digit_char n) out else rest

unfoldable pub str_ℕ : ℕ → String
unfolding emit digit_char
str_ℕ n = emit (suc n) n String.[]

unfoldable pub str : ℤ → String
unfolding str_ℕ
str (pos n) = str_ℕ n
str (negsuc n) = "-" <> str_ℕ (suc n)

unfoldable pub is_digit : Char → Bool
is_digit c = leb 48 (code c) && leb (code c) 57

-- Every character is an ASCII digit.
unfoldable pub all_digits : String → Bool
unfolding is_digit
all_digits String.[] = true
all_digits (String.◌∷◌ c s) = is_digit c && all_digits s

-- The number that digits spell behind `n`.
unfoldable pub value : ℕ → String → ℕ
value n String.[] = n
value n (String.◌∷◌ c s) = value (n * 10 + (code c - 48)) s

-- `int(text)` at the texts that `str` prints of a number of zero or more; other texts are answered by
-- none, a `ValueError` (of the spellings that `int` also accepts none is stored by the source).
unfoldable pub int : String → Option ℤ
unfolding all_digits value
int s = if truthy s && all_digits s then some (pos (value 0 s)) else none

digit_char-code : (n : ℕ) → n < 10 → code (digit_char n) ≡ 48 + n
unfolding digit_char
digit_char-code zero h = refl
digit_char-code (suc zero) h = refl
digit_char-code (suc (suc zero)) h = refl
digit_char-code (suc (suc (suc zero))) h = refl
digit_char-code (suc (suc (suc (suc zero)))) h = refl
digit_char-code (suc (suc (suc (suc (suc zero))))) h = refl
digit_char-code (suc (suc (suc (suc (suc (suc zero)))))) h = refl
digit_char-code (suc (suc (suc (suc (suc (suc (suc zero))))))) h = refl
digit_char-code (suc (suc (suc (suc (suc (suc (suc (suc zero)))))))) h = refl
digit_char-code (suc (suc (suc (suc (suc (suc (suc (suc (suc n))))))))) h = omega arith

digit_char-is_digit : (n : ℕ) → n < 10 → is_digit (digit_char n) ≡ true
unfolding is_digit
digit_char-is_digit n h = rw (digit_char-code n h) (ground arith)

value-emit : (fuel n : ℕ) (out : String) → n < fuel → value 0 (emit fuel n out) ≡ value n out
unfolding emit value
value-emit zero n out h = elim h [ ]
value-emit (suc fuel) n out h = elim (Bool-cases (ltb n 10)) [
  | inl small ↦
      rw small (ap (λ (k : ℕ). value k out) (omega (arith, digit_char-code n (ground arith))))
  | inr large ↦ rw large (
      value-emit fuel (n / 10) (String.◌∷◌ (digit_char (n % 10)) out) (ground arith)
      ∙ ap (λ (k : ℕ). value k out) (omega (arith, digit_char-code (n % 10))))
]

all_digits-emit :
    (fuel n : ℕ) (out : String) → all_digits out ≡ true → all_digits (emit fuel n out) ≡ true
unfolding emit
all_digits-emit zero n out h = h
all_digits-emit (suc fuel) n out h = elim (Bool-cases (ltb n 10)) [
  | inl small ↦ rw small (unfold all_digits in rw (digit_char-is_digit n (ground arith)) h)
  | inr large ↦ rw large (
      all_digits-emit fuel (n / 10) (String.◌∷◌ (digit_char (n % 10)) out)
        (unfold all_digits in rw (digit_char-is_digit (n % 10) (omega arith)) h))
]

truthy-emit : (fuel n : ℕ) (out : String) → truthy out ≡ true → truthy (emit fuel n out) ≡ true
unfolding emit
truthy-emit zero n out h = h
truthy-emit (suc fuel) n out h =
    ground (arith, truthy-emit fuel (n / 10) (String.◌∷◌ (digit_char (n % 10)) out))

pub str_ℕ-truthy : (n : ℕ) → truthy (str_ℕ n) ≡ true
unfolding str_ℕ emit
str_ℕ-truthy n = ground (arith, truthy-emit n (n / 10) (String.◌∷◌ (digit_char (n % 10)) String.[]))

pub all_digits-str_ℕ : (n : ℕ) → all_digits (str_ℕ n) ≡ true
unfolding str_ℕ all_digits
all_digits-str_ℕ n = all_digits-emit (suc n) n String.[] refl

pub value-str_ℕ : (n : ℕ) → value 0 (str_ℕ n) ≡ n
unfolding str_ℕ value
value-str_ℕ n = value-emit (suc n) n String.[] (omega arith)

pub int-str_ℕ : (n : ℕ) → int (str_ℕ n) ≡ some (pos n)
unfolding int
int-str_ℕ n = rw (str_ℕ-truthy n, all_digits-str_ℕ n, value-str_ℕ n)

-- A number below 10 ^ k, for k of at least 1, has at most k digits.
length-emit :
    (k fuel n : ℕ) (out : String)
    → n < 10 ^ suc k
    → text_length (emit fuel n out) ≤ suc k + text_length out
unfolding emit text_length
length-emit k zero n out h = omega arith
length-emit zero (suc fuel) n out h = ground arith
length-emit (suc k) (suc fuel) n out h = elim (Bool-cases (ltb n 10)) [
  | inl small ↦ rw small (omega arith)
  | inr large ↦ rw large (
      omega (
        arith,
        length-emit k fuel (n / 10) (String.◌∷◌ (digit_char (n % 10)) out)
            (omega (arith, pow-suc 10 (suc k))),
      ))
]

pub length-str_ℕ : (k n : ℕ) → n < 10 ^ suc k → text_length (str_ℕ n) ≤ suc k
unfolding str_ℕ text_length
length-str_ℕ k n h = omega (arith, length-emit k (suc n) n String.[] h)

pos_of_truthy : (s : String) → truthy s ≡ true → 1 ≤ text_length s
unfolding text_length
pos_of_truthy String.[] h = cc
pos_of_truthy (String.◌∷◌ c s) h = omega arith

pub length-str_ℕ_pos : (n : ℕ) → 1 ≤ text_length (str_ℕ n)
length-str_ℕ_pos n = pos_of_truthy (str_ℕ n) (str_ℕ-truthy n)
