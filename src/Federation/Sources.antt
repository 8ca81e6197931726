-- ===== src/Federation/Sources.antt =====
-- federation.py: the assertion sources for GitHub Actions, files and the environment.
use deixic_python.Base.{
  ℕ, String, ◌<>◌, false, ◌||◌, Option, none, some, List, [], ◌∷◌, truthy, is_empty, strip,
  if◌then◌else◌, Result, ok, err,
}
use deixic_python.Base.Fallible.{◌>>=◌}
use deixic_python.Base.Decimal.{str_ℕ}
use deixic_python.Value.{Value, Fields, get, as_text, as_dict}
use deixic_python.Errors.{DeixicError, validation_error, bytes, other, Response, or_default}
use deixic_python.Tasks.Types.{Raised, deixic, value_error, foreign}
use deixic_python.Tasks.Checks.{positive}
use deixic_python.Tasks.Platform.{Call}
use deixic_python.Client.{SplitUrl, stripped, billionths, raised_by}
use deixic_python.Client.Network.{HttpRequest, Reply, is_success}
use deixic_python.Federation.{assertion_unavailable}

-- `os.environ`, or the mapping that is given: a variable's value.
abbrev pub Environment : Type 0
Environment = String → Option String

-- `(env.get(name) or "").strip()`
abbrev pub variable : Environment → String → String
variable env name = strip (or_default (env name) "")

-- The source of `environment_assertion_source`.
unfoldable pub environment_source : Environment → String → Result DeixicError String
environment_source env name =
    let value = variable env name in
    if is_empty value
    then err (
        assertion_unavailable
          ("environment variable " <> name <> " does not contain a workload assertion"))
    else ok value

-- `environment_assertion_source`: the name that its source reads
unfoldable pub environment_assertion_source : Value → Result DeixicError String
environment_assertion_source name =
    if is_empty (stripped name)
    then err (validation_error "environment variable name is required")
    else ok (stripped name)

-- The source of `file_assertion_source`, of what `read_text` returns, none where it raises an
-- `OSError`, and of the path as `repr` prints it.
unfoldable pub file_source : String → Option String → Result DeixicError String
file_source path none =
    err (assertion_unavailable ("workload assertion file " <> path <> " could not be read"))
file_source path (some content) =
    if is_empty (strip content)
    then err (assertion_unavailable ("workload assertion file " <> path <> " is empty"))
    else ok (strip content)

-- `github_actions_assertion_source`: the audience and the timeout that its source is fixed to
unfoldable pub github_actions_assertion_source : Value → Value → Result DeixicError (String × ℕ)
github_actions_assertion_source audience timeout =
    if is_empty (stripped audience)
    then err (validation_error "audience is required")
    else positive timeout "timeout" >>= λ _. ok (stripped audience, billionths timeout)

-- What becomes of an exception of the transport.
abbrev pub as_token_request : {A : Type 0} → Result Raised A → Result Raised A
as_token_request (ok a) = ok a
as_token_request (err (deixic e)) = err (deixic e)
as_token_request (err e) =
    err (deixic (assertion_unavailable "GitHub Actions OIDC token request failed"))

-- `urlsplit`, none where it raises its `ValueError`, and `urlencode({"audience": audience})`; the
-- parser of `json.loads` on decoded bytes.
module _ (urlsplit : String → Option SplitUrl) (urlencode : String → String)
    (json_loads : List ℕ → Option Value) where
  unfoldable pub token_request : String → ℕ → String → String → Result Raised HttpRequest
  token_request audience timeout request_url request_token = elim (urlsplit request_url) [
    | none ↦ err value_error
    | some u ↦ ok (record {
      verb = "GET";
      url = request_url <> (if truthy u.query then "&" else "?") <> urlencode audience;
      headers = ("Accept", "application/json") ∷ ("Authorization", "Bearer " <> request_token) ∷ [];
      body = [];
      timeout = timeout;
      stream = false;
    })
  ]

  -- The value of a payload's field, where it is a text.
  abbrev pub value_in : Option Fields → Option String
  value_in none = none
  value_in (some fields) = as_text (get "value" fields)

  unfoldable pub token_value : Option Fields → Result DeixicError String
  token_value payload =
      let missing : Result DeixicError String =
        err (assertion_unavailable "GitHub Actions OIDC token response has no value") in
      elim (value_in payload) [
        | none ↦ missing
        | some s ↦ if is_empty (strip s) then missing else ok (strip s)
      ]

  -- The token of a response.
  unfoldable pub read_token : Response → Result Raised String
  read_token response =
      if is_success response.status_code
      then elim response.content [
        | bytes b ↦ raised_by (token_value (as_dict (json_loads b)))
        | other ↦ err (foreign "TypeError")
      ]
      else err (
          deixic (
            assertion_unavailable (
              "GitHub Actions OIDC token request failed with HTTP " <> str_ℕ response.status_code)))

  -- The transport.
  module _ {World : Type 0} (exchange : HttpRequest → Call World Reply)
      (close : Reply → World → World) where
    -- A response is closed after it is read.
    abbrev pub after_reply : Result Raised Reply × World → Result Raised String × World
    after_reply (ok reply, w) = (read_token reply.response, close reply w)
    after_reply (err e, w) = (as_token_request (err e), w)

    abbrev pub ask : Result Raised HttpRequest → Call World String
    ask (err e) w = (err e, w)
    ask (ok request) w = after_reply (exchange request w)

    -- The source of `github_actions_assertion_source`.
    unfoldable pub github_actions_source : Environment → String → ℕ → Call World String
    github_actions_source env audience timeout w =
        let request_url = variable env "ACTIONS_ID_TOKEN_REQUEST_URL" in
        let request_token = variable env "ACTIONS_ID_TOKEN_REQUEST_TOKEN" in
        if is_empty request_url || is_empty request_token
        then (
          err (
              deixic (
                assertion_unavailable
                  "ACTIONS_ID_TOKEN_REQUEST_URL and ACTIONS_ID_TOKEN_REQUEST_TOKEN are not set; grant the job the id-token: write permission")),
          w,
        )
        else ask (token_request audience timeout request_url request_token) w
