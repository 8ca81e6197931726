-- ===== src/Tasks/Checks/Canonical.antt =====
-- The texts that `_decimal` accepts.
use deixic_python.Base.{ℕ, ◌≤◌, ◌≡◌, ◌↔◌, sym, ap, ◌∙◌, subst, ok, arith, true, String}
use deixic_python.Base.Text.{text_eq_iff}
use deixic_python.Base.Decimal.{str_ℕ, value, value-str_ℕ}
use deixic_python.Value.{Value}
use deixic_python.Tasks.Checks.{max_cursor, is_decimal, decimal, decimal-ok, is_decimal-str_ℕ}

is_decimal-canonical :
    (s : String) → is_decimal s ≡ true → (str_ℕ (value 0 s) ≡ s) × (value 0 s ≤ max_cursor)
unfolding is_decimal
is_decimal-canonical s h = (ground (arith, text_eq_iff (str_ℕ (value 0 s)) s), ground arith)

decimal-inv :
    (s : String) (n : ℕ) → decimal (Value.text s) ≡ ok n → (is_decimal s ≡ true) × (value 0 s ≡ n)
unfolding decimal
decimal-inv s n h = ground arith

canonical-of :
    (v : Value) (n : ℕ) → decimal v ≡ ok n → (v ≡ Value.text (str_ℕ n)) × (n ≤ max_cursor)
unfolding decimal
canonical-of (Value.text s) n h =
    let (good, same) = decimal-inv s n h in
    let (text, small) = is_decimal-canonical s good in
    (ap Value.text (sym text ∙ ap str_ℕ same), subst (λ m. m ≤ max_cursor) same small)
canonical-of v n h = cc

-- The values that `_decimal` reads as a number are just the texts that `str` makes of it, for numbers
-- up to the largest int64: there is one text for each number, and every other value is refused.
pub decimal_iff :
    (v : Value) (n : ℕ) → (decimal v ≡ ok n) ↔ ((v ≡ Value.text (str_ℕ n)) × (n ≤ max_cursor))
decimal_iff v n = (
  canonical-of v n,
  λ (e, small).
      ap decimal e ∙ decimal-ok (str_ℕ n) (is_decimal-str_ℕ n small) ∙ ap ok (value-str_ℕ n),
)
