-- ===== src/Errors/Kinds.antt =====
-- What the kind of an error says about the response that it came from.
use deixic_python.Base.{ℕ, String, Bool, true, not, ◌||◌, ◌&&◌, ◌≡◌, ◌↔◌, Option, List, arith, ◌==◌}
use deixic_python.Base.Text.{lowers_to}
use deixic_python.Value.{Value}
use deixic_python.Errors.{
  unavailable, Response, or_default, connect_kind, kind_of, error_from_response, nested_code,
  payload,
}

-- A status whose kind the table of statuses settles.
abbrev pub is_settled : ℕ → Bool
is_settled n =
    n == 400
    || n == 401
    || n == 403
    || n == 404
    || n == 409
    || n == 412
    || n == 422
    || n == 429
    || n == 502
    || n == 503
    || n == 504

-- Calls that ask to be made again.
abbrev pub is_retryable_code : String → Bool
is_retryable_code c = lowers_to c "unavailable" || lowers_to c "deadline_exceeded"

connect_kind-unavailable :
    (c : String) → (connect_kind c ≡ unavailable) ↔ (is_retryable_code c ≡ true)
unfolding connect_kind lowers_to
connect_kind-unavailable c = ground arith

kind_of-unavailable :
    (n : ℕ) (code : Option String)
    → (kind_of n code ≡ unavailable) ↔ (
        ((n == 502 || n == 503 || n == 504)
          || (not (is_settled n) && is_retryable_code (or_default code "unknown")))
        ≡ true)
unfolding kind_of
kind_of-unavailable n code = ground (arith, connect_kind-unavailable (or_default code "unknown"))

kind_of-settled : (n : ℕ) (c d : Option String) → is_settled n ≡ true → kind_of n c ≡ kind_of n d
unfolding kind_of
kind_of-settled n c d h = ground arith

module _ (json_loads : List ℕ → Option Value) where
  -- A failed response is an error of kind `unavailable`, for which observation reconnects, exactly
  -- when its status is 502, 503 or 504, or when no other status in the table settles the kind and the
  -- code of its payload (its `error` field included; "unknown" where there is none) lowers to
  -- "unavailable" or "deadline_exceeded".
  pub error_from_response-unavailable :
      (r : Response)
      → ((error_from_response json_loads r).kind ≡ unavailable) ↔ (
          ((r.status_code == 502 || r.status_code == 503 || r.status_code == 504)
            || (not (is_settled r.status_code)
                && is_retryable_code (or_default (nested_code (payload json_loads r)) "unknown")))
          ≡ true)
  unfolding error_from_response
  error_from_response-unavailable r =
      kind_of-unavailable r.status_code (nested_code (payload json_loads r))

  -- A status in the table settles the kind: no header and no payload changes it.
  pub error_from_response-settled :
      (r s : Response)
      → r.status_code ≡ s.status_code
      → is_settled r.status_code ≡ true
      → (error_from_response json_loads r).kind ≡ (error_from_response json_loads s).kind
  unfolding error_from_response
  error_from_response-settled r s e h = rw (← e) (kind_of-settled r.status_code _ _ h)
