-- ===== src/Errors.antt =====
-- errors.py: the SDK's exception, and how a response or a stream's end envelope becomes one.
pub mod Kinds
pub mod Headers
use deixic_python.Base.{
  ℕ, String, ◌<>◌, Bool, true, false, ◌||◌, Option, none, some, List, [], ◌∷◌, ◌==◌, truthy,
  if◌then◌else◌,
}
use deixic_python.Base.Text.{lowers_to}
use deixic_python.Base.Decimal.{str_ℕ}
use deixic_python.Value.{Value, null, Fields, end, get, as_text, as_dict}

-- The texts that the SDK gives as `kind`.
pub data Kind : Type 0 where
  authentication authorization validation not_found conflict rate_limited unavailable protocol
        transport :
      Kind

-- `class DeixicError`
pub record DeixicError : Type 0 where
  pub message : String
  pub kind : Kind
  pub status_code : Option ℕ
  pub code : Option String
  pub request_id : Option String
  pub traceparent : Option String
  pub details : Fields

-- `DeixicError(message, kind=kind)` with the other arguments left out
abbrev pub plain_error : String → Kind → DeixicError
plain_error message kind = record {
  message = message;
  kind = kind;
  status_code = none;
  code = none;
  request_id = none;
  traceparent = none;
  details = end;
}

unfoldable pub validation_error : String → DeixicError
validation_error message = record (plain_error message validation) { status_code = some 400 }

unfoldable pub authentication_error : String → DeixicError
authentication_error message = record (plain_error message authentication) {
  status_code = some 401;
}

-- `response.content`: the protocol says bytes, and the source tests it.
pub data Content : Type 0 where
  bytes : List ℕ → Content
  other : Content

-- A transport's response. `json` is what `response.json()` returns, none where it raises the
-- `ValueError` or `AttributeError` that the source catches.
pub record Response : Type 0 where
  pub status_code : ℕ
  pub headers : List (String × String)
  pub content : Content
  pub json : Option Value

-- `_string`
unfoldable pub nonempty : Option Value → Option String
nonempty v = elim (as_text v) [ none ↦ none | some s ↦ if truthy s then some s else none ]

-- `a or b`, for texts that may be None or empty
abbrev pub or_text : Option String → Option String → Option String
or_text none b = b
or_text (some a) b = if truthy a then some a else b

abbrev pub or_default : Option String → String → String
or_default none b = b
or_default (some a) b = if truthy a then a else b

-- `_header`: the value of the first header whose name lowers to the given one
unfoldable pub header : List (String × String) → String → Option String
header [] name = none
header ((key, value) ∷ rest) name = if lowers_to key name then some value else header rest name

-- `_connect_kind`: the table, read through `code.lower()`
unfoldable pub connect_kind : String → Kind
connect_kind code =
    if lowers_to code "unauthenticated"
    then authentication
    else if lowers_to code "permission_denied"
    then authorization
    else if lowers_to code "invalid_argument"
    then validation
    else if lowers_to code "out_of_range"
    then validation
    else if lowers_to code "not_found"
    then not_found
    else if lowers_to code "already_exists"
    then conflict
    else if lowers_to code "aborted"
    then conflict
    else if lowers_to code "failed_precondition"
    then conflict
    else if lowers_to code "resource_exhausted"
    then rate_limited
    else if lowers_to code "unavailable"
    then unavailable
    else if lowers_to code "deadline_exceeded"
    then unavailable
    else if lowers_to code "canceled"
    then transport
    else protocol

-- `_kind`
unfoldable pub kind_of : ℕ → Option String → Kind
unfolding connect_kind
kind_of status_code code =
    if status_code == 401
    then authentication
    else if status_code == 403
    then authorization
    else if status_code == 400 || status_code == 422
    then validation
    else if status_code == 404
    then not_found
    else if status_code == 409 || status_code == 412
    then conflict
    else if status_code == 429
    then rate_limited
    else if status_code == 502 || status_code == 503 || status_code == 504
    then unavailable
    else connect_kind (or_default code "unknown")

abbrev fields_of : Option Value → Fields
fields_of v = elim (as_dict v) [ none ↦ end | some fs ↦ fs ]

abbrev nonzero : ℕ → Option ℕ
nonzero n = if n == 0 then none else some n

-- The code and the message of a payload, its `error` field included.
abbrev pub nested_code : Fields → Option String
nested_code fs = elim (as_dict (get "error" fs)) [
  | some nested ↦ or_text (nonempty (get "code" fs)) (nonempty (get "code" nested))
  | none ↦ nonempty (get "code" fs)
]

abbrev pub nested_message : Fields → Option String
nested_message fs = elim (as_dict (get "error" fs)) [
  | some nested ↦ or_text (nonempty (get "message" fs)) (nonempty (get "message" nested))
  | none ↦ or_text (nonempty (get "message" fs)) (as_text (get "error" fs))
]

-- `json.loads` on decoded bytes; none where the decoding or the parser fails.
module _ (json_loads : List ℕ → Option Value) where
  -- `_payload`
  unfoldable pub payload : Response → Fields
  payload response = elim response.json [
    | some value ↦ fields_of (some value)
    | none ↦ elim response.content [ bytes b ↦ fields_of (json_loads b) | other ↦ end ]
  ]

  unfoldable pub error_from_response : Response → DeixicError
  unfolding payload nonempty header kind_of get
  error_from_response response =
      let fs = payload response in
      let code = nested_code fs in
      record {
        message =
            or_default (nested_message fs)
              ("Deixic request failed with HTTP " <> str_ℕ response.status_code);
        kind = kind_of response.status_code code;
        status_code = nonzero response.status_code;
        code = or_text (header response.headers "x-evalops-error-code") code;
        request_id = header response.headers "x-request-id";
        traceparent = header response.headers "traceparent";
        details = fs;
      }

  unfoldable pub connect_stream_error : List ℕ → List (String × String) → DeixicError
  unfolding nonempty header connect_kind get
  connect_stream_error frame headers =
      let document = fields_of (json_loads frame) in
      let error = fields_of (get "error" document) in
      let code = or_default (nonempty (get "code" error)) "unknown" in
      record {
        message = or_default (nonempty (get "message" error)) "Deixic stream ended with an error";
        kind = connect_kind code;
        status_code = none;
        code = some code;
        request_id = header headers "x-request-id";
        traceparent = header headers "traceparent";
        details = document;
      }
