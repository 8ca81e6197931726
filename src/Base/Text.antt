-- ===== src/Base/Text.antt =====
-- Python's str: equality, `strip`, `len` and `lower`, over texts as lists of characters.
use Prim.Native.Nat.{ℕ, suc, ◌+◌}
use Prim.Native.Char.{Char, code}
use Prim.Native.String.{String}
use mathlib.Core.Path.{◌≡◌, refl}
use mathlib.Core.Logic.{◌↔◌, ite, dite, inl, inr}
use mathlib.Core.Bool.{Bool, true, false, not, ◌&&◌, ◌||◌, Bool-discrete}
use mathlib.Core.List.{List, [], ◌∷◌}
use native.Mathlib.Omega.{arith}
use native.Mathlib.Decide.{ℕ_discrete}
use text.Mathlib.Text
use text.Mathlib.TextEquality.{eq_iff}
use deixic_python.Base.Tests.{leb, ◌==◌, if◌then◌else◌, Bool-cases}

-- Shut in proofs, where a split on `text_eq s t` gives the equation or its negation.
unfoldable pub text_dec : Discrete String
text_dec s t =
    dite (Bool-discrete (Text.◌==◌ s t) true) (λ same. yes ((eq_iff s t).0 same))
      (λ differ. no (λ p. differ ((eq_iff s t).1 p)))

abbrev pub text_eq : String → String → Bool
text_eq s t = ite (text_dec s t) true false

pub text_eq_iff : (s t : String) → (text_eq s t ≡ true) ↔ (s ≡ t)
text_eq_iff s t = ground arith

abbrev pub is_empty : String → Bool
is_empty String.[] = true
is_empty (String.◌∷◌ c s) = false

-- `bool(s)`
abbrev pub truthy : String → Bool
truthy s = not (is_empty s)

-- `len(s)`: the number of characters
unfoldable pub text_length : String → ℕ
text_length String.[] = 0
text_length (String.◌∷◌ c s) = suc (text_length s)

-- The characters that `str.isspace` accepts and `str.strip` removes.
unfoldable pub is_space : Char → Bool
is_space c =
    let n = code c in
    (leb 9 n && leb n 13)
    || (leb 28 n && leb n 32)
    || n == 0x85
    || n == 0xa0
    || n == 0x1680
    || (leb 0x2000 n && leb n 0x200a)
    || n == 0x2028
    || n == 0x2029
    || n == 0x202f
    || n == 0x205f
    || n == 0x3000

unfoldable pub lstrip : String → String
lstrip String.[] = String.[]
lstrip (String.◌∷◌ c s) = if is_space c then lstrip s else String.◌∷◌ c s

-- A character goes if it is a space and nothing after it stays.
abbrev trim_before : Char → String → String
trim_before c rest = if is_space c && is_empty rest then String.[] else String.◌∷◌ c rest

unfoldable pub rstrip : String → String
rstrip String.[] = String.[]
rstrip (String.◌∷◌ c s) = trim_before c (rstrip s)

unfoldable pub strip : String → String
unfolding lstrip rstrip is_space
strip s = rstrip (lstrip s)

-- The code points of a text.
unfoldable pub codes : String → List ℕ
codes String.[] = []
codes (String.◌∷◌ c s) = code c ∷ codes s

-- `str.lower`, as far as the source compares its result, which is with lower-case ASCII texts: of the
-- characters beyond ASCII only the Kelvin sign becomes an ASCII letter.
unfoldable pub lower_code : ℕ → ℕ
lower_code n = if leb 65 n && leb n 90 then n + 32 else if n == 0x212a then 107 else n

unfoldable pub lower : String → List ℕ
unfolding lower_code
lower String.[] = []
lower (String.◌∷◌ c s) = lower_code (code c) ∷ lower s

-- Shut in proofs, as `text_dec` is.
unfoldable pub codes_dec : Discrete (List ℕ)
codes_dec = hlevel ℕ_discrete

-- `s.lower() == name`
unfoldable pub lowers_to : String → String → Bool
unfolding lower codes
lowers_to s name = ite (codes_dec (lower s) (codes name)) true false

rstrip_idem : (s : String) → rstrip (rstrip s) ≡ rstrip s
unfolding rstrip
rstrip_idem String.[] = refl
rstrip_idem (String.◌∷◌ c s) = elim (Bool-cases (is_space c && is_empty (rstrip s))) [
  | inl e ↦ rw e
  | inr e ↦ rw e (rw (rstrip_idem s, e))
]

-- What `lstrip` leaves begins with no space, and dropping spaces at the end keeps that.
abbrev starts_clean : String → Bool
starts_clean String.[] = true
starts_clean (String.◌∷◌ c s) = not (is_space c)

lstrip-starts_clean : (s : String) → starts_clean (lstrip s) ≡ true
unfolding lstrip
lstrip-starts_clean String.[] = refl
lstrip-starts_clean (String.◌∷◌ c s) = ground (arith, lstrip-starts_clean s)

rstrip-starts_clean : (s : String) → starts_clean s ≡ true → starts_clean (rstrip s) ≡ true
unfolding rstrip
rstrip-starts_clean String.[] h = refl
rstrip-starts_clean (String.◌∷◌ c s) h = ground arith

lstrip_of_clean : (s : String) → starts_clean s ≡ true → lstrip s ≡ s
unfolding lstrip
lstrip_of_clean String.[] h = refl
lstrip_of_clean (String.◌∷◌ c s) h = ground arith

pub strip_idem : (s : String) → strip (strip s) ≡ strip s
unfolding strip
strip_idem s =
    rw
      (lstrip_of_clean (rstrip (lstrip s)) (rstrip-starts_clean (lstrip s) (lstrip-starts_clean s)))
      (rstrip_idem (lstrip s))
