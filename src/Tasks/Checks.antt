-- ===== src/Tasks/Checks.antt =====
-- The checks of tasks.py on what an application hands in: `_identity`, `_body`, `_decimal`, `_pages`
-- and `_positive`.
pub mod Canonical
use deixic_python.Base.{
  ℕ, ◌^◌, ◌-◌, ◌≤◌, arith, refl, String, ◌<>◌, Bool, true, false, not, ◌&&◌, none, some, leb,
  text_eq, is_empty, strip, if◌then◌else◌, Result, ok, err, ◌≡◌,
}
use deixic_python.Base.Text.{text_length, text_eq_iff}
use deixic_python.Base.Int.{pos, leb_ℤ}
use deixic_python.Base.Decimal.{
  str_ℕ, all_digits, value, all_digits-str_ℕ, value-str_ℕ, length-str_ℕ, length-str_ℕ_pos,
}
use deixic_python.Value.{Value, as_text, finite}
use deixic_python.Errors.{DeixicError, validation_error}

abbrev pub max_cursor : ℕ
max_cursor = 2 ^ 63 - 1

-- The test of `_identity` on a text.
unfoldable pub is_identity : String → Bool
unfolding strip
is_identity s = not (is_empty (strip s)) && text_eq s (strip s)

-- `_identity`
unfoldable pub identity : Value → String → Result DeixicError String
unfolding validation_error
identity v name =
    let refused : Result DeixicError String =
      err
        (validation_error (name <> " must be a non-empty string without surrounding whitespace")) in
    elim (as_text (some v)) [ none ↦ refused | some s ↦ if is_identity s then ok s else refused ]

-- The test of `_body` on a text.
unfoldable pub is_body : String → Bool
unfolding strip text_length
is_body s = not (is_empty (strip s)) && leb (text_length s) 20000

-- `_body`
unfoldable pub body : Value → Result DeixicError String
unfolding validation_error
body v =
    let refused : Result DeixicError String =
      err (validation_error "body must contain between 1 and 20000 characters") in
    elim (as_text (some v)) [ none ↦ refused | some s ↦ if is_body s then ok s else refused ]

-- The test of `_decimal` on a text.
unfoldable pub is_decimal : String → Bool
is_decimal s =
    leb 1 (text_length s)
    && leb (text_length s) 19
    && all_digits s
    && text_eq (str_ℕ (value 0 s)) s
    && leb (value 0 s) max_cursor

-- `_decimal`
unfoldable pub decimal : Value → Result DeixicError ℕ
unfolding validation_error
decimal v =
    let refused : Result DeixicError ℕ =
      err (
        validation_error
          "Checkpoint cursor and sequence must be canonical int64 decimal strings") in
    elim (as_text (some v)) [
      | none ↦ refused
      | some s ↦ if is_decimal s then ok (value 0 s) else refused
    ]

-- `_pages`
unfoldable pub pages : Value → Result DeixicError ℕ
unfolding validation_error
pages (Value.int (pos n)) =
    if leb 1 n && leb n 50
    then ok n
    else err (validation_error "max_pages must be between 1 and 50")
pages _ = err (validation_error "max_pages must be between 1 and 50")

-- Above zero and finite, of a number that is no bool.
unfoldable pub is_positive : Value → Bool
is_positive (Value.int n) = leb_ℤ (pos 1) n
is_positive (Value.float (finite n)) = leb_ℤ (pos 1) n
is_positive _ = false

-- `_positive`
unfoldable pub positive : Value → String → Result DeixicError (Unit {0})
unfolding is_positive validation_error
positive v name =
    if is_positive v
    then ok tt
    else err (validation_error (name <> " must be a positive finite number"))

pub identity-ok : (s name : String) → is_identity s ≡ true → identity (Value.text s) name ≡ ok s
unfolding identity
identity-ok s name h = rw h

pub body-ok : (s : String) → is_body s ≡ true → body (Value.text s) ≡ ok s
unfolding body
body-ok s h = rw h

pub decimal-ok : (s : String) → is_decimal s ≡ true → decimal (Value.text s) ≡ ok (value 0 s)
unfolding decimal
decimal-ok s h = rw h

leb-true : (a b : ℕ) → a ≤ b → leb a b ≡ true
leb-true a b h = ground arith

-- What `str` makes of a number of 64 bits is canonical.
pub is_decimal-str_ℕ : (n : ℕ) → n ≤ max_cursor → is_decimal (str_ℕ n) ≡ true
unfolding is_decimal
is_decimal-str_ℕ n h = rw (
  all_digits-str_ℕ n,
  value-str_ℕ n,
  leb-true 1 (text_length (str_ℕ n)) (length-str_ℕ_pos n),
  leb-true (text_length (str_ℕ n)) 19 (length-str_ℕ 18 n (omega arith)),
  (text_eq_iff (str_ℕ n) (str_ℕ n)).1 refl,
  leb-true n max_cursor h,
)
