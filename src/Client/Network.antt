-- ===== src/Client/Network.antt =====
-- client.py: `_send`, `_unary` and `_stream`, over a transport and a credential provider.
pub mod Steps
pub mod Replay
pub mod Answered
pub mod Admitted
use deixic_python.Base.{
  ℕ, String, ◌<>◌, Bool, true, false, not, ◌||◌, ◌&&◌, Option, none, some, List, [], ◌∷◌, leb, ◌==◌,
  min, truthy, if◌then◌else◌, Result, ok, err, Action, pure, raise, gets, ◌>>=◌, ◌>>◌,
}
use deixic_python.Value.{Value}
use deixic_python.Errors.{
  DeixicError, plain_error, Kind, protocol, transport, validation_error, Content, Response,
  error_from_response,
}
use deixic_python.Auth.{Credential, Identity, check, check_refresh}
use deixic_python.Stream.{Ending, Run, decode}
use deixic_python.Stream.Encode.{pack}
use deixic_python.Tasks.Types.{Raised, deixic}
use deixic_python.Tasks.Checks.{is_positive}
use deixic_python.Tasks.Platform.{Call}
use deixic_python.Client.{Config, billionths}

-- The arguments of `transport.send`; the timeout is in billionths of a second.
pub record HttpRequest : Type 0 where
  pub verb : String
  pub url : String
  pub headers : List (String × String)
  pub body : List ℕ
  pub timeout : ℕ
  pub stream : Bool

-- What a transport hands back: the response, and what the iteration over its content gives.
pub record Reply : Type 0 where
  pub response : Response
  pub chunks : List (List ℕ)
  pub ending : Ending

-- The transport and the credential provider.
pub record Network : Type 1 where
  pub World : Type 0
  pub can_refresh : Bool
  pub get_credential : Call World Credential
  pub refresh_credential : Credential → Call World Credential
  pub exchange : HttpRequest → Call World Reply
  pub close : Reply → World → World

-- The identity of a client, and the world.
pub record Connection (World : Type 0) : Type 0 where
  pub identity : Identity
  pub world : World

abbrev pub Talk : Type 0 → Type 0 → Type 0
Talk World A = Action (Connection World) Raised A

module _ {World : Type 0} where
  abbrev pub reach : {A : Type 0} → Call World A → Talk World A
  reach m s = let (r, w) = m s.world in (r, record s { world = w })

  abbrev pub judged :
      Result DeixicError Credential × Identity
      → Connection World
      → Result Raised Credential × Connection World
  judged (ok c, i) s = (ok c, record s { identity = i })
  judged (err e, i) s = (err (deixic e), record s { identity = i })

  -- A call of the client's `CredentialIdentity`.
  abbrev pub judge : (Identity → Result DeixicError Credential × Identity) → Talk World Credential
  judge f s = judged (f s.identity) s

-- `except DeixicError: raise`, and any other exception as one of the transport
abbrev pub as_transport : {A : Type 0} → String → Result Raised A → Result Raised A
as_transport message (ok a) = ok a
as_transport message (err (deixic e)) = err (deixic e)
as_transport message (err e) = err (deixic (plain_error message transport))

abbrev pub service : String
service = "deixicpublic.v1.DeixicPublicService"

-- `credential.token_type or "Bearer"`
abbrev pub scheme_of : Credential → String
scheme_of c = if truthy c.token_type then c.token_type else "Bearer"

abbrev pub content_type : Bool → String
content_type true = "application/connect+proto"
content_type false = "application/proto"

-- `min(self._timeout, timeout) if timeout is not None else self._timeout`
abbrev pub effective_timeout : ℕ → Option Value → ℕ
effective_timeout limit none = limit
effective_timeout limit (some v) = min limit (billionths v)

abbrev pub is_bad_timeout : Option Value → Bool
is_bad_timeout none = false
is_bad_timeout (some v) = not (is_positive v)

abbrev pub is_success : ℕ → Bool
is_success status = leb 200 status && not (leb 300 status)

module _ (config : Config) where
  -- The request that `_send` makes.
  unfoldable pub http_request : String → List ℕ → Credential → Bool → Option Value → HttpRequest
  http_request method body credential stream timeout = record {
    verb = "POST";
    url = config.base_url <> "/" <> service <> "/" <> method;
    headers =
        ("Authorization", scheme_of credential <> " " <> credential.access_token)
        ∷ ("Connect-Protocol-Version", "1")
        ∷ ("Content-Type", content_type stream)
        ∷ ("Accept", content_type stream)
        ∷ ("X-Organization-ID", config.organization_id)
        ∷ ("X-Workspace-ID", config.workspace_id)
        ∷ [];
    body = body;
    timeout = effective_timeout config.timeout timeout;
    stream = stream;
  }

-- The error of a response that cannot be parsed.
unfoldable pub invalid_response : ℕ → DeixicError
invalid_response status =
    record (plain_error "Deixic returned an invalid protobuf response" protocol) {
      status_code = some status;
    }

-- `result.ParseFromString(bytes(response.content))`
abbrev pub parse_content : {M : Type 0} → (List ℕ → Option M) → Content → Option M
parse_content parse (Content.bytes b) = parse b
parse_content parse Content.other = none

abbrev pub or_error : {M : Type 0} → Option M → DeixicError → Result DeixicError M
or_error (some m) e = ok m
or_error none e = err e

-- The result that `_unary` reads from a response; `json_loads` is for the mapping of errors.
unfoldable pub read_unary :
    {M : Type 0} → (List ℕ → Option Value) → (List ℕ → Option M) → Response → Result DeixicError M
read_unary json_loads parse response =
    if is_success response.status_code
    then or_error (parse_content parse response.content) (invalid_response response.status_code)
    else err (error_from_response json_loads response)

module _ (N : Network) (config : Config) where
  -- `_send`
  unfoldable pub send : String → List ℕ → Credential → Bool → Option Value → Talk N.World Reply
  send method body credential stream timeout s =
      if is_bad_timeout timeout
      then (err (deixic (validation_error "timeout must be a positive finite number")), s)
      else let (r, w) =
          N.exchange (http_request config method body credential stream timeout) s.world in
        (as_transport "Deixic transport failed" r, record s { world = w })

  abbrev pub close_reply : Reply → Talk N.World (Unit {0})
  close_reply reply s = (ok tt, record s { world = N.close reply s.world })

  -- The second attempt: close the response, refresh the credential, and send the same bytes again.
  unfoldable pub send_again :
      String → List ℕ → Credential → Bool → Option Value → Reply → Talk N.World Reply
  send_again method body current stream timeout reply = do
    close_reply reply
    refreshed ← reach (N.refresh_credential current)
    next ← judge (check_refresh current refreshed)
    send method body next stream timeout

  -- What `_unary` and `_stream` share: a checked credential, the first attempt, and the second where
  -- the first is refused with 401 and the provider can refresh.
  unfoldable pub open_call : String → List ℕ → Bool → Option Value → Talk N.World Reply
  open_call method body stream timeout = do
    given ← reach N.get_credential
    current ← judge (check given)
    reply ← send method body current stream timeout
    elim (reply.response.status_code == 401 && N.can_refresh) [
      | true ↦ send_again method body current stream timeout reply
      | false ↦ pure reply
    ]

  -- `json.loads`, for the mapping of errors
  module _ (json_loads : List ℕ → Option Value) where
    abbrev pub answered : {A : Type 0} → Result DeixicError A → Talk N.World A
    answered (ok a) s = (ok a, s)
    answered (err e) s = (err (deixic e), s)

    -- `_unary`, on the serialised request
    unfoldable pub unary :
        {M : Type 0} → (List ℕ → Option M) → String → List ℕ → Option Value → Talk N.World M
    unary parse method body timeout = do
      reply ← open_call method body false timeout
      close_reply reply
      answered (read_unary json_loads parse reply.response)

    -- `_stream`, on the serialised request: the messages of the generator and how it ends
    unfoldable pub stream :
        {M : Type 0} → (List ℕ → Option M) → String → List ℕ → Talk N.World (Run M)
    stream parse method payload = do
      reply ← open_call method (pack 0 payload) true none
      elim (is_success reply.response.status_code) [
        | true ↦ pure (decode parse json_loads reply.response.headers reply.chunks reply.ending)
        | false ↦ do
          close_reply reply
          raise (deixic (error_from_response json_loads reply.response))
      ]
