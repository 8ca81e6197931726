-- ===== src/Tests/Wire.antt =====
-- Runs of the error mapping, the credential checks and the stream decoder.
use deixic_python.Base.{
  ℕ, true, ◌||◌, ◌≡◌, refl, ◌↔◌, Option, none, some, List, [], ◌∷◌, ok, All, all, any, strip, arith,
  ◌==◌, if◌then◌else◌, ℕ_discrete, not, ◌&&◌,
}
use deixic_python.Base.Text.{
  text_dec, lowers_to, lower, codes, is_space, lstrip, rstrip, lower_code, codes_dec,
}
use deixic_python.Value.{Value, dict, field, end, text, get}
use deixic_python.Errors.{
  unavailable, Content, Response, error_from_response, header, kind_of, connect_kind, nonempty,
  payload,
}
use deixic_python.Errors.Kinds.{
  error_from_response-unavailable, error_from_response-settled, is_settled, is_retryable_code,
}
use deixic_python.Auth.{
  Credential, fresh, check, refusal, header_refusal, tenant_refusal, principal_refusal, clean,
  has_control, is_control, is_http_token, all_token_chars, is_token_char, scope_set, same_set,
  commit,
}
use deixic_python.Auth.Headers.{IsHeaderSafe, check-IsHeaderSafe}
use deixic_python.Auth.Stability.{
  accepted, IsStable, accepted-IsStable, InTenant, accepted-InTenant,
}
use deixic_python.Auth.{Identity}
use deixic_python.Auth.Refresh.{check-refused}
use deixic_python.Errors.{DeixicError, authentication, authentication_error}
use deixic_python.Stream.{decode, exhausted}
use deixic_python.Stream.Chunks.{decode-joined}
use deixic_python.Stream.Encode.{pack, decode-stream_bytes}

-- A parser that knows one document, the byte 123, as an object with nothing in it.
abbrev parse_json : List ℕ → Option Value
parse_json (x ∷ []) = if x == 123 then some (dict end) else none
parse_json _ = none

abbrev overloaded : Response
overloaded = record {
  status_code = 503;
  headers = ("Retry", "1") ∷ ("X-Request-Id", "r7") ∷ [];
  content = Content.bytes [];
  json = none;
}

abbrev teapot : Response
teapot = record overloaded {
  status_code = 418;
  json = some (dict (field "error" (dict (field "code" (text "UNAVAILABLE") end)) end));
}

teapot-kind : (error_from_response parse_json teapot).kind ≡ unavailable
unfolding error_from_response payload get text_dec nonempty kind_of connect_kind lowers_to lower
    lower_code codes codes_dec ℕ_discrete
teapot-kind = refl

error_from_response-unavailable_example :
    ((error_from_response parse_json teapot).kind ≡ unavailable) ↔ (
      ((418 == 502 || 418 == 503 || 418 == 504)
        || (not (is_settled 418) && is_retryable_code "UNAVAILABLE"))
      ≡ true)
unfolding payload get text_dec nonempty
error_from_response-unavailable_example = error_from_response-unavailable parse_json teapot

error_from_response-settled_example :
    (error_from_response parse_json overloaded).kind
    ≡ (error_from_response parse_json (record teapot { status_code = 503 })).kind
error_from_response-settled_example =
    error_from_response-settled parse_json overloaded (record teapot { status_code = 503 }) refl
      refl

-- The name is found under another spelling.
header-found : header overloaded.headers "x-request-id" ≡ some "r7"
unfolding header lowers_to lower lower_code codes codes_dec ℕ_discrete
header-found = refl

abbrev token : Credential
token = record {
  access_token = "k3y";
  token_type = "Bearer";
  subject = some "user-1";
  organization_id = some "org";
  workspace_id = none;
  scopes = "read" ∷ [];
}

abbrev other_user : Credential
other_user = record token { subject = some "user-2" }

check-IsHeaderSafe_example : (token ≡ token) × IsHeaderSafe token
unfolding check refusal header_refusal tenant_refusal principal_refusal clean strip lstrip rstrip
    is_space has_control is_control is_http_token all_token_chars is_token_char scope_set commit
    text_dec
check-IsHeaderSafe_example =
    check-IsHeaderSafe token token (fresh "org" "ws") (commit token (fresh "org" "ws")) refl

-- The second credential is refused: its subject is another one.
accepted-first : accepted (token ∷ other_user ∷ token ∷ []) (fresh "org" "ws") ≡ token ∷ token ∷ []
unfolding accepted check refusal header_refusal tenant_refusal principal_refusal clean strip lstrip
    rstrip is_space has_control is_control is_http_token all_token_chars is_token_char scope_set
    same_set commit text_dec all any
accepted-first = refl

abbrev known : Identity
known = commit token (fresh "org" "ws")

abbrev subject_changed_error : DeixicError
subject_changed_error = authentication_error "credential refresh changed the authenticated subject"

check-refused_example : (known ≡ known) × (subject_changed_error.kind ≡ authentication)
unfolding check refusal header_refusal tenant_refusal principal_refusal clean strip lstrip rstrip
    is_space has_control is_control is_http_token all_token_chars is_token_char scope_set same_set
    commit text_dec all any
check-refused_example = check-refused other_user known known subject_changed_error refl

accepted-IsStable_example : IsStable (accepted (token ∷ other_user ∷ token ∷ []) (fresh "org" "ws"))
accepted-IsStable_example = accepted-IsStable (token ∷ other_user ∷ token ∷ []) (fresh "org" "ws")

accepted-InTenant_example :
    All (InTenant "org" "ws") (accepted (token ∷ other_user ∷ token ∷ []) (fresh "org" "ws"))
accepted-InTenant_example = accepted-InTenant (token ∷ other_user ∷ token ∷ []) "org" "ws"

-- Messages are their bytes.
abbrev parse_bytes : List ℕ → Option (List ℕ)
parse_bytes bytes = some bytes

abbrev print_bytes : List ℕ → List ℕ
print_bytes bytes = bytes

abbrev body_bytes : List ℕ
body_bytes = 0 ∷ 0 ∷ 0 ∷ 0 ∷ 2 ∷ 7 ∷ 9 ∷ 2 ∷ 0 ∷ 0 ∷ 0 ∷ 1 ∷ 123 ∷ []

decode-joined_example :
    decode parse_bytes parse_json [] (body_bytes ∷ []) exhausted
    ≡ decode parse_bytes parse_json []
        ((0 ∷ 0 ∷ 0 ∷ []) ∷ [] ∷ (0 ∷ 2 ∷ 7 ∷ 9 ∷ 2 ∷ 0 ∷ 0 ∷ []) ∷ (0 ∷ 1 ∷ 123 ∷ []) ∷ [])
        exhausted
decode-joined_example =
    decode-joined parse_bytes parse_json [] (body_bytes ∷ [])
      ((0 ∷ 0 ∷ 0 ∷ []) ∷ [] ∷ (0 ∷ 2 ∷ 7 ∷ 9 ∷ 2 ∷ 0 ∷ 0 ∷ []) ∷ (0 ∷ 1 ∷ 123 ∷ []) ∷ []) exhausted
      refl

decode-stream_bytes_example :
    decode parse_bytes parse_json [] (body_bytes ∷ []) exhausted
    ≡ record { messages = (7 ∷ 9 ∷ []) ∷ []; outcome = ok tt }
unfolding pack get
decode-stream_bytes_example =
    decode-stream_bytes parse_bytes parse_json [] print_bytes (123 ∷ []) end (omega arith) refl refl
      (body_bytes ∷ []) ((7 ∷ 9 ∷ []) ∷ []) refl ((refl, omega arith), tt)
