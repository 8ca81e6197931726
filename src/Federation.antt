-- ===== src/Federation.antt =====
-- federation.py: the checks, errors and messages of the exchange of workload assertions.
pub mod Sources
pub mod Provider
use deixic_python.Base.{
  ℕ, String, ◌<>◌, Bool, true, false, not, ◌||◌, ◌&&◌, Option, none, some, List, [], ◌∷◌, ◌==◌, leb,
  text_eq, is_empty, truthy, strip, if◌then◌else◌, Result, ok, err,
}
use deixic_python.Base.Fallible.{◌>>=◌, ◌>>◌}
use deixic_python.Base.Int.{ℤ, pos, leb_ℤ}
use deixic_python.Base.Decimal.{str_ℕ}
use deixic_python.Value.{Value, Float, finite, Fields, Items, get, as_text, as_dict}
use deixic_python.Errors.{
  DeixicError, plain_error, Kind, authentication, authorization, validation, conflict, unavailable,
  protocol, transport, validation_error, header, Response, Content,
}
use deixic_python.Tasks.Voice.{texts_of, list_of}
use deixic_python.Tasks.Checks.{is_positive, positive}
use deixic_python.Client.{SplitUrl, stripped, rstrip_slash, split_url}
use deixic_python.Tasks.Types.{Raised}

abbrev pub exchange_path : String
exchange_path = "/v1/workload-federation/exchange"

abbrev pub remembered_assertions : ℕ
remembered_assertions = 16

abbrev pub reused_code : String
reused_code = "workload_assertion_reused"

abbrev pub unavailable_code : String
unavailable_code = "workload_federation_unavailable"

abbrev pub transport_code : String
transport_code = "workload_exchange_transport"

-- `error.code == code`
abbrev pub has_code : DeixicError → String → Bool
has_code e name = elim e.code [ none ↦ false | some c ↦ text_eq c name ]

-- `error.code in {_UNAVAILABLE, _TRANSPORT}`
abbrev pub is_retryable : DeixicError → Bool
is_retryable e = has_code e unavailable_code || has_code e transport_code

-- `error.code in _EARLY_REFRESH_TOLERATED`
abbrev pub is_tolerated : DeixicError → Bool
is_tolerated e = has_code e reused_code || has_code e unavailable_code || has_code e transport_code

-- `DeixicError(message, kind=kind, code=code)`
abbrev pub coded_error : String → Kind → String → DeixicError
coded_error message kind code = record (plain_error message kind) { code = some code }

-- `_assertion_unavailable` and `_invalid_response`
unfoldable pub assertion_unavailable : String → DeixicError
assertion_unavailable message = coded_error message authentication "workload_assertion_unavailable"

unfoldable pub invalid_response : String → DeixicError
invalid_response message = coded_error message protocol "workload_exchange_invalid"

-- The table of `_exchange_error`: the error of a status, without its headers.
unfoldable pub status_error : ℕ → DeixicError
status_error status =
    if status == 400
    then coded_error "Identity rejected the workload exchange request as malformed" validation
        "workload_assertion_invalid"
    else if status == 403
    then coded_error "Identity did not match the workload assertion to an active federation rule"
        authorization "workload_federation_forbidden"
    else if status == 409
    then coded_error "Identity already accepted this workload assertion" conflict
        "workload_assertion_replayed"
    else if status == 503
    then coded_error "Identity workload federation is unavailable" unavailable unavailable_code
    else coded_error ("Identity workload exchange failed with HTTP " <> str_ℕ status) protocol
        "workload_exchange_failed"

-- `_exchange_error`
unfoldable pub exchange_error : Response → DeixicError
exchange_error response = record (status_error response.status_code) {
  status_code = some response.status_code;
  request_id = header response.headers "x-request-id";
  traceparent = header response.headers "traceparent";
}

-- `_field`
unfoldable pub field_text : Fields → String → Result DeixicError String
field_text payload name = elim (as_text (get name payload)) [
  | none ↦ err (invalid_response ("Identity exchange response is missing " <> name))
  | some s ↦
      if is_empty (strip s)
      then err (invalid_response ("Identity exchange response is missing " <> name))
      else ok (strip s)
]

-- The scopes of an exchange's payload: a list of texts.
unfoldable pub scopes_of : Fields → Result DeixicError (List String)
scopes_of payload = elim (list_of (get "scopes" payload)) [
  | none ↦ err (invalid_response "Identity exchange response has invalid scopes")
  | some items ↦ elim (texts_of items) [
    | none ↦ err (invalid_response "Identity exchange response has invalid scopes")
    | some scopes ↦ ok scopes
  ]
]

-- The test of `_non_negative`.
unfoldable pub is_non_negative : Value → Bool
is_non_negative (Value.int n) = leb_ℤ (pos 0) n
is_non_negative (Value.float (finite n)) = leb_ℤ (pos 0) n
is_non_negative _ = false

-- `_non_negative`
unfoldable pub non_negative : Value → String → Result DeixicError (Unit {0})
non_negative v field =
    if is_non_negative v
    then ok tt
    else err (validation_error (field <> " must be a non-negative finite number"))

-- The test on `max_attempts`.
abbrev pub is_attempts : Value → Bool
is_attempts (Value.int n) = leb_ℤ (pos 1) n && leb_ℤ n (pos 10)
is_attempts _ = false

-- `_validated_identity_url`
unfoldable pub validated_identity_url : (String → Option SplitUrl) → Value → Result Raised String
validated_identity_url urlsplit v = split_url urlsplit "identity_url" (rstrip_slash (stripped v))
