-- ===== src/Tasks/Submit.antt =====
-- `TasksClient.prepare`, `TasksClient.start` and `Task._submit`.
pub mod Outcome
pub mod Valid
pub mod Frame
use deixic_python.Base.{
  ℕ, String, Bool, true, false, not, ◌||◌, Option, none, some, List, [], is_empty, truthy,
  if◌then◌else◌, Result, ok, err, Action, pure, lift, gets, ◌>>=◌, ◌>>◌,
}
use deixic_python.Base.Int.{ℤ, pos, leb_ℤ, ltb_ℤ}
use deixic_python.Base.Decimal.{str}
use deixic_python.Base.Fallible
use deixic_python.Value.{Value}
use deixic_python.Errors.{DeixicError, validation_error}
use deixic_python.Tasks.Voice.{VoiceSelection, voice_checkpoint, voice_entry, voice_from_checkpoint}
use deixic_python.Tasks.Types.{
  Checkpoint, Client, Submission, prepared, unacknowledged, accepted, Accepted, Raised, deixic,
}
use deixic_python.Tasks.Checks.{identity, body, is_identity}
use deixic_python.Tasks.Platform.{
  Platform, SubmitRequest, Call, TaskState, Session, Run, call, set_checkpoint, raise_protocol_if,
  checked, save,
}

-- `_identity(project_resource_id, …) if project_resource_id != "" else ""`
unfoldable pub prepare_project : String → Result DeixicError String
prepare_project s = if is_empty s then ok "" else identity (Value.text s) "project_resource_id"

unfoldable pub prepare_voice : Option VoiceSelection → Result DeixicError (Option VoiceSelection)
prepare_voice none = ok none
prepare_voice (some v) = Fallible.◌>>=◌ (voice_checkpoint v) (λ w. ok (some w))

-- The checkpoint that `prepare` makes of its arguments.
unfoldable pub prepare_checkpoint :
    Client
    → String
    → String
    → String
    → String
    → Option VoiceSelection
    → Result DeixicError Checkpoint
prepare_checkpoint client channel_id task_body idempotency_key project_resource_id voice_selection =
    Fallible.◌>>=◌ (identity (Value.text channel_id) "channel_id") λ channel.
      Fallible.◌>>=◌ (body (Value.text task_body)) λ request.
        Fallible.◌>>=◌ (identity (Value.text idempotency_key) "idempotency_key") λ key.
          Fallible.◌>>=◌ (prepare_project project_resource_id) λ project.
            Fallible.◌>>=◌ (prepare_voice voice_selection) λ voice. ok (record {
              organization_id = client.organization_id;
              workspace_id = client.workspace_id;
              base_url = client.base_url;
              channel_id = channel;
              body = request;
              idempotency_key = key;
              project_resource_id = project;
              submission = prepared;
              turn_id = "";
              sequence = "0";
              cursor = "0";
              voice_selection = voice;
            })

-- `Task(client, state, on_checkpoint)`
abbrev pub new_task : Checkpoint → TaskState
new_task c = record { checkpoint = c; event = none; submitting = false; observing = false }

abbrev pub same_submission : Submission → Submission → Bool
same_submission prepared prepared = true
same_submission unacknowledged unacknowledged = true
same_submission accepted accepted = true
same_submission _ _ = false

-- `_voice_from_checkpoint(state["voiceSelection"])`, where the schema is v2
unfoldable pub saved_voice : Option VoiceSelection → Result DeixicError (Option VoiceSelection)
saved_voice none = ok none
saved_voice (some v) = Fallible.◌>>=◌ (voice_from_checkpoint (voice_entry v)) (λ w. ok (some w))

-- The arguments of the call of `messages.send`.
unfoldable pub request_of : Checkpoint → Option VoiceSelection → SubmitRequest
request_of c voice = record {
  channel_id = c.channel_id;
  body = c.body;
  idempotency_key = c.idempotency_key;
  project_resource_id = if truthy c.project_resource_id then some c.project_resource_id else none;
  voice_selection = voice;
}

-- The test of the accepted turn's coordinates.
unfoldable pub is_bad_turn : Accepted → Bool
is_bad_turn a =
    not (is_identity a.turn_id) || leb_ℤ a.sequence (pos 0) || ltb_ℤ a.replay_cursor (pos 0)

abbrev pub mark_unacknowledged : Checkpoint → Checkpoint
mark_unacknowledged c = record c { submission = unacknowledged }

abbrev pub mark_accepted : Accepted → Checkpoint → Checkpoint
mark_accepted a c = record c {
  submission = accepted;
  turn_id = a.turn_id;
  sequence = str a.sequence;
  cursor = str a.replay_cursor;
}

module _ (P : Platform) (on_checkpoint : Option (Checkpoint → Call P.World (Unit {0}))) where
  -- Behind the answer of `messages.send`.
  unfoldable pub accept : Accepted → Run P.World (Unit {0})
  accept a = do
    raise_protocol_if (is_bad_turn a) "Submission omitted valid accepted-turn coordinates"
    set_checkpoint (mark_accepted a)
    save on_checkpoint

  -- From the save before the network call on.
  unfoldable pub transmit : Run P.World (Unit {0})
  transmit = do
    c ← gets (λ s. s.task.checkpoint)
    voice ← checked (saved_voice c.voice_selection)
    a ← call (P.send (request_of c voice))
    accept a

  -- The body of `try` in `_submit`.
  unfoldable pub submit_body : Run P.World (Unit {0})
  submit_body = do set_checkpoint mark_unacknowledged; save on_checkpoint; transmit

  abbrev pub set_submitting : Bool → Session P.World → Session P.World
  set_submitting b s = record s { task = record s.task { submitting = b } }

  -- `Task._submit`; `submit` requires `prepared` and `replay` requires `unacknowledged`.
  unfoldable pub submit_from : Submission → Run P.World (Unit {0})
  submit_from required s =
      if s.task.submitting || not (same_submission s.task.checkpoint.submission required)
      then (
        err (
            deixic (
              validation_error
                "Submission already attempted; resume or explicitly replay an unacknowledged request")),
        s,
      )
      else let (r, s') = submit_body (set_submitting true s) in (r, set_submitting false s')

  unfoldable pub submit : Run P.World (Unit {0})
  submit = submit_from prepared

  unfoldable pub replay : Run P.World (Unit {0})
  replay = submit_from unacknowledged

module _ {World : Type 0} (on_checkpoint : Option (Checkpoint → Call World (Unit {0}))) where
  -- `TasksClient.prepare`: the checkpoint is saved before the handle is returned.
  unfoldable pub prepare :
      Client
      → String
      → String
      → String
      → String
      → Option VoiceSelection
      → World
      → Result Raised TaskState × World
  prepare client channel_id task_body key project voice w =
      elim (prepare_checkpoint client channel_id task_body key project voice) [
        | err e ↦ (err (deixic e), w)
        | ok c ↦
            let (r, s) = save on_checkpoint (record { task = new_task c; world = w }) in
            (elim r [ ok u ↦ ok s.task | err e ↦ err e ], s.world)
      ]

module _ (P : Platform) (on_checkpoint : Option (Checkpoint → Call P.World (Unit {0}))) where
  abbrev started : Result Raised (Unit {0}) → TaskState → Result Raised TaskState
  started (ok u) task = ok task
  started (err e) task = err e

  -- `TasksClient.start`: `prepare`, then `submit`. The handle is lost where either raises.
  unfoldable pub start :
      Client
      → String
      → String
      → String
      → String
      → Option VoiceSelection
      → P.World
      → Result Raised TaskState × P.World
  start client channel_id task_body key project voice w =
      let (r, v) = prepare on_checkpoint client channel_id task_body key project voice w in
      elim r [
        | err e ↦ (err e, v)
        | ok task ↦
            let (o, s) = submit P on_checkpoint (record { task = task; world = v }) in
            (started o s.task, s.world)
      ]
