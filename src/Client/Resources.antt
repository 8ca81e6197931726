-- ===== src/Client/Resources.antt =====
-- client.py: the clients of threads, events, messages, voices, controls and receipts.
use deixic_python.Base.{
  ℕ, String, Bool, true, false, not, ◌&&◌, Option, none, some, List, text_eq, truthy, if◌then◌else◌,
  Result, ok, err, pure, raise, ◌>>=◌, ◌>>◌,
}
use deixic_python.Base.Int.{ℤ, pos}
use deixic_python.Value.{Value}
use deixic_python.Errors.{DeixicError, plain_error, protocol, validation_error}
use deixic_python.Stream.{Run}
use deixic_python.Tasks.Voice.{VoiceSelection, normalize_voice_selection}
use deixic_python.Tasks.Types.{Accepted, ThreadPage, EventPage, Receipt, RequestKind, deixic}
use deixic_python.Tasks.Checks.{max_cursor}
use deixic_python.Client.{Config, required, bounded_int}
use deixic_python.Client.Network.{Network, Talk, unary, stream}

-- `pb.Scope`
pub record Scope : Type 0 where
  pub organization_id : String
  pub workspace_id : String

-- `Deixic._scope`
abbrev pub scope_of : Config → Scope
scope_of config = record {
  organization_id = config.organization_id;
  workspace_id = config.workspace_id;
}

-- The messages that the clients build, each with its scope.
pub record SubmitMessage : Type 0 where
  pub thread_id : String
  pub body : String
  pub idempotency_key : String
  pub continuation_task_id : String
  pub reference_task_ids : List String
  pub coding_contract : Option (List ℕ)
  pub project_resource_id : Option String

-- `pb.RespondToRequestRequest`, without its scope
pub record Answer : Type 0 where
  pub thread_id : String
  pub turn_id : String
  pub request_id : String
  pub request_kind : RequestKind
  pub action : ℤ
  pub call_id : String
  pub text : String
  pub is_error : Bool
  pub idempotency_key : String

pub data Message : Type 0 where
  get_thread : Scope → (thread_id : String) → (limit : ℤ) → (page_token : String) → Message
  list_events : Scope → (thread_id : String) → (after_cursor : ℤ) → (limit : ℤ) → Message
  watch_events : Scope → (thread_id : String) → (after_cursor : ℤ) → Message
  submit_task : Scope → SubmitMessage → Message
  submit_voiced_task : Scope → SubmitMessage → VoiceSelection → Message
  interrupt_task : Scope → (thread_id turn_id idempotency_key reason : String) → Message
  respond_to_request : Scope → Answer → Message
  get_receipt :
      Scope → (thread_id receipt_id : String) → (include_coding_output_content : Bool) → Message
  resolve_receipt_action : Scope → (receipt_id action_id idempotency_key : String) → Message
  get_voice_catalog : Scope → Message

-- `pb.GetVoiceCatalogResponse`: the scope, and the rest of the message
pub record VoiceCatalog : Type 0 where
  pub scope : Scope
  pub voices : List String

-- The protobuf library, with the type of a watched message: the deterministic serialisation of messages, and the parsers. The result of a
-- voiced submission is none where the field is unset.
pub record Codec : Type 1 where
  pub WatchEvents : Type 0
  pub serialize : Message → List ℕ
  pub parse_thread : List ℕ → Option ThreadPage
  pub parse_events : List ℕ → Option EventPage
  pub parse_watch : List ℕ → Option WatchEvents
  pub parse_accepted : List ℕ → Option Accepted
  pub parse_voiced : List ℕ → Option (Option Accepted)
  pub parse_receipt : List ℕ → Option Receipt
  pub parse_done : List ℕ → Option (Unit {0})
  pub parse_catalog : List ℕ → Option VoiceCatalog
  pub json_loads : List ℕ → Option Value

-- The integer of a value that has passed `_bounded_int`.
abbrev pub integer_of : Value → ℤ
integer_of (Value.int n) = n
integer_of _ = pos 0

module _ {World : Type 0} where
  -- A check of an argument.
  abbrev pub argument : {A : Type 0} → Result DeixicError A → Talk World A
  argument (ok a) s = (ok a, s)
  argument (err e) s = (err (deixic e), s)

module _ (N : Network) (config : Config) (codec : Codec) where
  -- A call of `_unary`.
  abbrev pub unary_of :
      {M : Type 0} → (List ℕ → Option M) → String → Message → Option Value → Talk N.World M
  unary_of parse method message timeout =
      unary N config codec.json_loads parse method (codec.serialize message) timeout

  -- `ThreadsClient.get`
  unfoldable pub threads_get :
      Value → Value → Value → String → Option Value → Talk N.World ThreadPage
  threads_get channel_id limit offset page_token timeout = do
    argument (bounded_int limit "limit" 1 200)
    argument (bounded_int offset "offset" 0 0)
    thread_id ← argument (required channel_id "channel_id")
    unary_of codec.parse_thread "GetThread"
        (Message.get_thread (scope_of config) thread_id (integer_of limit) page_token) timeout

  -- `EventsClient.list`
  unfoldable pub events_list : Value → Value → Value → Option Value → Talk N.World EventPage
  events_list channel_id after_cursor limit timeout = do
    argument (bounded_int after_cursor "after_cursor" 0 max_cursor)
    argument (bounded_int limit "limit" 1 200)
    thread_id ← argument (required channel_id "channel_id")
    unary_of codec.parse_events "ListEvents"
        (Message.list_events (scope_of config) thread_id (integer_of after_cursor)
          (integer_of limit))
        timeout

  -- `EventsClient.watch`
  unfoldable pub events_watch : Value → Value → Talk N.World (Run codec.WatchEvents)
  events_watch channel_id after_cursor = do
    argument (bounded_int after_cursor "after_cursor" 0 max_cursor)
    thread_id ← argument (required channel_id "channel_id")
    stream N config codec.json_loads codec.parse_watch "WatchEvents" (
        codec.serialize
          (Message.watch_events (scope_of config) thread_id (integer_of after_cursor)))

  abbrev pub optional_id : Option Value → String → Result DeixicError (Option String)
  optional_id none field = ok none
  optional_id (some v) field = elim (required v field) [ ok s ↦ ok (some s) | err e ↦ err e ]

  abbrev pub voiced_result : Option Accepted → Talk N.World Accepted
  voiced_result (some a) s = (ok a, s)
  voiced_result none s =
      (err (deixic (plain_error "Voiced submission omitted its result" protocol)), s)

  -- The message of a submission, behind the checks of its arguments.
  unfoldable pub submit_message :
      Value
      → String
      → Value
      → String
      → List String
      → Option Value
      → Option (List ℕ)
      → Talk N.World SubmitMessage
  submit_message channel_id body idempotency_key continuation references project coding = do
    thread_id ← argument (required channel_id "channel_id")
    key ← argument (required idempotency_key "idempotency_key")
    project_id ← argument (optional_id project "project_resource_id")
    pure (record {
      thread_id = thread_id;
      body = body;
      idempotency_key = key;
      continuation_task_id = continuation;
      reference_task_ids = references;
      coding_contract = coding;
      project_resource_id = project_id;
    })

  -- `SubmitTask`, or `SubmitVoicedTask` with the selection.
  unfoldable pub submit_with : SubmitMessage → Option VoiceSelection → Talk N.World Accepted
  submit_with message none =
      unary_of codec.parse_accepted "SubmitTask" (Message.submit_task (scope_of config) message)
        none
  submit_with message (some voice) = do
    selection ← argument (normalize_voice_selection voice)
    result ←
        unary_of codec.parse_voiced "SubmitVoicedTask"
          (Message.submit_voiced_task (scope_of config) message selection) none
    voiced_result result

  -- `MessagesClient.send`
  unfoldable pub messages_send :
      Value
      → String
      → Value
      → String
      → List String
      → Option Value
      → Option (List ℕ)
      → Option VoiceSelection
      → Talk N.World Accepted
  messages_send channel_id body idempotency_key continuation references project coding voice = do
    message ← submit_message channel_id body idempotency_key continuation references project coding
    submit_with message voice

  -- `VoicesClient.list`
  unfoldable pub voices_list : Talk N.World VoiceCatalog
  voices_list = do
    catalog ←
        unary_of codec.parse_catalog "GetVoiceCatalog" (Message.get_voice_catalog (scope_of config))
          none
    elim (text_eq catalog.scope.organization_id config.organization_id
        && text_eq catalog.scope.workspace_id config.workspace_id) [
          | true ↦ pure catalog
          | false ↦
              raise (deixic (plain_error "Voice catalog belongs to a different workspace" protocol))
        ]

  -- `ControlsClient.interrupt`
  unfoldable pub interrupt : Value → Value → String → String → Talk N.World (Unit {0})
  interrupt channel_id idempotency_key turn_id reason = do
    thread_id ← argument (required channel_id "channel_id")
    key ← argument (required idempotency_key "idempotency_key")
    unary_of codec.parse_done "InterruptTask"
        (Message.interrupt_task (scope_of config) thread_id turn_id key reason) none

  abbrev pub key_conflict : String → String → Result DeixicError (Unit {0})
  key_conflict given key =
      if truthy given && not (text_eq given key)
      then err (validation_error "response.idempotency_key must match idempotency_key")
      else ok tt

  -- The message of a response, behind the checks of its arguments.
  unfoldable pub answer_message : Value → Value → Answer → Value → Talk N.World Answer
  answer_message channel_id turn_id response idempotency_key = do
    key ← argument (required idempotency_key "idempotency_key")
    argument (key_conflict response.idempotency_key key)
    thread_id ← argument (required channel_id "channel_id")
    turn ← argument (required turn_id "turn_id")
    pure (record response { thread_id = thread_id; turn_id = turn; idempotency_key = key })

  -- `ControlsClient.respond`
  unfoldable pub respond : Value → Value → Answer → Value → Talk N.World (Unit {0})
  respond channel_id turn_id response idempotency_key = do
    answer ← answer_message channel_id turn_id response idempotency_key
    unary_of codec.parse_done "RespondToRequest"
        (Message.respond_to_request (scope_of config) answer) none

  -- `ReceiptsClient.get`, with the receipt of the response
  unfoldable pub receipts_get : Value → Value → Bool → Option Value → Talk N.World Receipt
  receipts_get channel_id receipt_id include timeout = do
    thread_id ← argument (required channel_id "channel_id")
    receipt ← argument (required receipt_id "receipt_id")
    unary_of codec.parse_receipt "GetReceipt"
        (Message.get_receipt (scope_of config) thread_id receipt include) timeout

  -- `ReceiptsClient.resolve`
  unfoldable pub receipts_resolve : Value → Value → Value → Talk N.World (Unit {0})
  receipts_resolve receipt_id action_id idempotency_key = do
    receipt ← argument (required receipt_id "receipt_id")
    action ← argument (required action_id "action.id")
    key ← argument (required idempotency_key "idempotency_key")
    unary_of codec.parse_done "ResolveReceiptAction"
        (Message.resolve_receipt_action (scope_of config) receipt action key) none
