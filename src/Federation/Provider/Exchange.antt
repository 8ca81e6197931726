-- ===== src/Federation/Provider/Exchange.antt =====
-- federation.py: the exchange of an assertion for a credential.
use Prim.Native.Char.{code}
use Prim.Native.String.{String as Text}
use deixic_python.Base.{
  ℕ, zero, suc, ◌-◌, String, Bool, true, false, ◌||◌, Option, none, some, [], ◌∷◌, ◌==◌,
  if◌then◌else◌, Result, ok, err, raise, ◌>>=◌,
}
use deixic_python.Base.Fallible
use deixic_python.Client.{raised_by}
use deixic_python.Value.{Fields, as_dict}
use deixic_python.Errors.{DeixicError, transport, bytes, other, Response}
use deixic_python.Auth.{Credential}
use deixic_python.Tasks.Types.{Raised, deixic, foreign}
use deixic_python.Client.Network.{HttpRequest, Reply, is_success}
use deixic_python.Federation.{
  reused_code, transport_code, has_code, is_retryable, coded_error, invalid_response,
  exchange_error, field_text, scopes_of,
}
use deixic_python.Federation.Provider.{
  Seconds, Surroundings, Settings, Provider, Held, Act, outside, reading, next_assertion,
}

-- `value[:-1] + "+00:00" if value.endswith(("Z", "z")) else value`
unfoldable pub with_offset : String → String
with_offset Text.[] = Text.[]
with_offset (Text.◌∷◌ c Text.[]) =
    if code c == 90 || code c == 122 then "+00:00" else Text.◌∷◌ c Text.[]
with_offset (Text.◌∷◌ c (Text.◌∷◌ d s)) = Text.◌∷◌ c (with_offset (Text.◌∷◌ d s))

abbrev pub transport_failed : DeixicError
transport_failed =
    coded_error "Identity workload exchange transport failed" transport transport_code

-- What becomes of an exception of the transport.
abbrev pub as_exchange : {A : Type 0} → Result Raised A → Result Raised A
as_exchange (ok a) = ok a
as_exchange (err (deixic e)) = err (deixic e)
as_exchange (err e) = err (deixic transport_failed)

-- What `except DeixicError` catches.
abbrev pub caught : Raised → Option DeixicError
caught (deixic e) = some e
caught Raised.deadline_reached = none
caught (Raised.callback_failed e) = none
caught Raised.value_error = none
caught (foreign name) = none

-- A test on what `except DeixicError` catches.
unfoldable pub caught_as : (DeixicError → Bool) → Raised → Bool
caught_as test e = elim (caught e) [ none ↦ false | some d ↦ test d ]

module _ (T : Seconds) (E : Surroundings T) (settings : Settings T) where
  -- `_parse_expiry`
  unfoldable pub parse_expiry : String → Result DeixicError T.Time
  parse_expiry text = elim (E.fromisoformat (with_offset text)) [
    | none ↦ err (invalid_response "Identity exchange response has an invalid expires_at")
    | some moment ↦ ok (E.timestamp (if E.is_naive moment then E.in_utc moment else moment))
  ]

  -- `json.loads(bytes(response.content).decode("utf-8"))`, none where it is no mapping
  unfoldable pub payload_of : Response → Result Raised (Option Fields)
  payload_of response = elim response.content [
    | bytes b ↦ ok (as_dict (E.json_loads b))
    | other ↦ err (foreign "TypeError")
  ]

  abbrev pub fields_or : Option Fields → Result DeixicError Fields
  fields_or none = err (invalid_response "Identity returned an invalid exchange response")
  fields_or (some fields) = ok fields

  -- The times of a credential that expires at a moment.
  unfoldable pub store : Credential → T.Time → T.Time → Provider T → Provider T
  store credential expiry now p =
      let lifetime = T.max_time T.zero_time (T.sub expiry now) in
      record p {
        refresh_at =
            T.add now (T.max_time (T.sub lifetime settings.refresh_margin) (T.half lifetime));
        expires_at = T.add now lifetime;
        credential = some credential;
      }

  abbrev pub keep : Credential → T.Time → T.Time → Act T E.World Credential
  keep credential expiry now s =
      (ok credential, record s { provider = store credential expiry now s.provider })

  abbrev lifted : {A : Type 0} → Result Raised A → Act T E.World A
  lifted r s = (r, s)

  -- The fields of a payload, in the order in which `_credential_from` reads them, with the expiry.
  unfoldable pub read_fields : Fields → Result DeixicError (Credential × T.Time)
  read_fields payload = Fallible.◌>>=◌ (field_text payload "access_token") λ access_token.
      Fallible.◌>>=◌ (field_text payload "token_type") λ token_type.
        Fallible.◌>>=◌ (field_text payload "principal_id") λ principal_id.
          Fallible.◌>>=◌ (field_text payload "organization_id") λ organization_id.
            Fallible.◌>>=◌ (field_text payload "workspace_id") λ workspace_id.
              Fallible.◌>>=◌ (field_text payload "expires_at") λ moment.
                Fallible.◌>>=◌ (parse_expiry moment) λ expiry.
                  Fallible.◌>>=◌ (scopes_of payload) λ scopes. ok (
                    record {
                      access_token = access_token;
                      token_type = token_type;
                      subject = some principal_id;
                      organization_id = some organization_id;
                      workspace_id = some workspace_id;
                      scopes = scopes;
                    },
                    expiry,
                  )

  -- What a response says, which no clock changes.
  unfoldable pub read_credential : Response → Result Raised (Credential × T.Time)
  read_credential response =
      Fallible.◌>>=◌ (payload_of response)
        λ found. raised_by (Fallible.◌>>=◌ (fields_or found) read_fields)

  -- `_credential_from`
  unfoldable pub credential_from : Response → Act T E.World Credential
  credential_from response = do
    (credential, expiry) ← lifted (read_credential response)
    now ← reading E.clock
    keep credential expiry now

  unfoldable pub exchange_request : String → HttpRequest
  exchange_request assertion = record {
    verb = "POST";
    url = settings.exchange_url;
    headers = ("Accept", "application/json") ∷ ("Content-Type", "application/json") ∷ [];
    body = E.dumps assertion;
    timeout = settings.timeout;
    stream = false;
  }

  -- The response is closed however the reading of it ends.
  abbrev pub closing :
      {A : Type 0} → Reply → Result Raised A × Held T E.World → Result Raised A × Held T E.World
  closing reply (r, s) = (r, record s { world = E.close reply s.world })

  abbrev pub read_status : Bool → Response → Act T E.World Credential
  read_status true response = credential_from response
  read_status false response = raise (deixic (exchange_error response))

  -- The reading of a response.
  unfoldable pub read_reply : Reply → Act T E.World Credential
  read_reply reply s =
      closing reply (read_status (is_success reply.response.status_code) reply.response s)

  -- `_exchange_once`
  unfoldable pub exchange_once : String → Act T E.World Credential
  exchange_once assertion = do
    reply ←
        outside (λ w. let (r, u) = E.exchange (exchange_request assertion) w in (as_exchange r, u))
    read_reply reply

  -- The pause before an attempt that follows a failure.
  abbrev pub pause : ℕ → Option DeixicError → E.World → E.World
  pause attempt none w = w
  pause attempt (some e) w = E.sleep (T.doubled (attempt - 1) settings.retry_delay) w

  -- What a failure of the assertion source raises.
  abbrev pub source_error : Option DeixicError → Raised → Raised
  source_error none e = e
  source_error (some last) e = if caught_as (λ d. has_code d reused_code) e then deixic last else e

  abbrev pub final_error : Option DeixicError → Raised
  final_error none = foreign "AssertionError"
  final_error (some last) = deixic last

  -- What follows the failure of an attempt: the next one, or its exception.
  abbrev pub retry :
      Bool → (Option DeixicError → Act T E.World Credential) → Raised → Act T E.World Credential
  retry true next e = next (caught e)
  retry false next e = raise e

  abbrev pub or_retry :
      (Option DeixicError → Act T E.World Credential)
      → Result Raised Credential × Held T E.World
      → Result Raised Credential × Held T E.World
  or_retry next (ok c, s) = (ok c, s)
  or_retry next (err e, s) = retry (caught_as is_retryable e) next e s

  -- An attempt, with the assertion that the source gave or with the exception of it.
  abbrev pub attempt_with :
      Option DeixicError
      → (Option DeixicError → Act T E.World Credential)
      → Result Raised String × Held T E.World
      → Result Raised Credential × Held T E.World
  attempt_with last next (err e, s) = (err (source_error last e), s)
  attempt_with last next (ok assertion, s) = or_retry next (exchange_once assertion s)

  -- The loop of `_exchange`, by the attempts that remain.
  unfoldable pub attempts : ℕ → ℕ → Option DeixicError → Act T E.World Credential
  attempts zero attempt last s = (err (final_error last), s)
  attempts (suc remaining) attempt last s =
      attempt_with last (attempts remaining (suc attempt))
        (next_assertion T E (record s { world = pause attempt last s.world }))

  -- `_exchange`
  unfoldable pub exchange : Act T E.World Credential
  exchange = attempts settings.max_attempts 0 none
