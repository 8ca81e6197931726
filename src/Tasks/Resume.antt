-- ===== src/Tasks/Resume.antt =====
-- `TasksClient.resume`: a task from a checkpoint that the application has stored.
pub mod Valid
pub mod RoundTrip
pub mod Sound
use deixic_python.Base.{
  ℕ, String, Bool, true, false, not, ◌||◌, ◌&&◌, Option, none, some, List, [], ◌∷◌, ◌==◌, text_eq,
  is_empty, if◌then◌else◌, Result, ok, err,
}
use deixic_python.Base.Fallible.{◌>>=◌, ◌>>◌}
use deixic_python.Base.Int.{pos, ◌==ℤ◌}
use deixic_python.Value.{
  Value, null, Float, finite, Items, nil, cons, Fields, end, field, get, as_dict, as_text,
}
use deixic_python.Errors.{DeixicError, validation_error}
use deixic_python.Tasks.Voice.{
  VoiceSelection, has_keys, voice_entry, voice_from_checkpoint, voice_checkpoint,
}
use deixic_python.Tasks.Types.{Checkpoint, Client, Submission, prepared, unacknowledged, accepted}
use deixic_python.Tasks.Checks.{identity, body, decimal, is_identity}

abbrev pub submission_text : Submission → String
submission_text prepared = "prepared"
submission_text unacknowledged = "unacknowledged"
submission_text accepted = "accepted"

abbrev pub schema_text : Option VoiceSelection → String
schema_text none = "deixic.task.v1"
schema_text (some v) = "deixic.task.v2"

abbrev voice_field : Option VoiceSelection → Fields
voice_field none = end
voice_field (some v) = field "voiceSelection" (voice_entry v) end

-- `Task.checkpoint()`: the dict that is handed to the application.
unfoldable pub to_value : Checkpoint → Value
unfolding voice_entry
to_value c = Value.dict (
    field "schema" (Value.text (schema_text c.voice_selection)) (
      field "organizationId" (Value.text c.organization_id) (
        field "workspaceId" (Value.text c.workspace_id) (
          field "baseUrl" (Value.text c.base_url) (
            field "channelId" (Value.text c.channel_id) (
              field "body" (Value.text c.body) (
                field "idempotencyKey" (Value.text c.idempotency_key) (
                  field "projectResourceId" (Value.text c.project_resource_id) (
                    field "submission" (Value.text (submission_text c.submission)) (
                      field "turnId" (Value.text c.turn_id) (
                        field "sequence" (Value.text c.sequence) (
                          field "cursor" (Value.text c.cursor)
                            (voice_field c.voice_selection)))))))))))))

abbrev pub base_keys : List String
base_keys =
    "schema" ∷ "organizationId" ∷ "workspaceId" ∷ "baseUrl" ∷ "channelId" ∷ "body"
    ∷ "idempotencyKey" ∷ "projectResourceId" ∷ "submission" ∷ "turnId" ∷ "sequence" ∷ "cursor" ∷ []

-- `value == text`, for a value of any type
abbrev pub is_text : Value → String → Bool
is_text v s = elim (as_text (some v)) [ none ↦ false | some t ↦ text_eq t s ]

-- `state[name]`. The keys have been compared, so the name is there.
abbrev pub at : String → Fields → Value
at name fs = elim (get name fs) [ none ↦ null | some v ↦ v ]

abbrev pub expected_keys : Fields → List String
expected_keys fs =
    if is_text (at "schema" fs) "deixic.task.v2" then "voiceSelection" ∷ base_keys else base_keys

abbrev pub refuse : {A : Type 0} → String → Result DeixicError A
refuse message = err (validation_error message)

-- `if test: raise validation_error(message)`
unfoldable pub refuse_if : Bool → String → Result DeixicError (Unit {0})
unfolding validation_error
refuse_if test message = if test then refuse message else ok tt

-- The voice selection of a `deixic.task.v2` checkpoint, normalised; none for `deixic.task.v1`.
unfoldable pub resume_voice : Value → Value → Result DeixicError (Option VoiceSelection)
unfolding validation_error
resume_voice schema entry =
    if is_text schema "deixic.task.v2"
    then (do v ← voice_from_checkpoint entry; w ← voice_checkpoint v; ok (some w))
    else if is_text schema "deixic.task.v1"
    then ok none
    else refuse "Unsupported task checkpoint schema"

-- `not value`
abbrev is_falsy : Value → Bool
is_falsy null = true
is_falsy (Value.bool b) = not b
is_falsy (Value.int n) = n ==ℤ pos 0
is_falsy (Value.float (finite n)) = n ==ℤ pos 0
is_falsy (Value.float x) = false
is_falsy (Value.text s) = is_empty s
is_falsy (Value.list nil) = true
is_falsy (Value.list (cons v vs)) = false
is_falsy (Value.dict end) = true
is_falsy (Value.dict (field k v fs)) = false

-- `if state["projectResourceId"]: … elif state["projectResourceId"] != "": …`
unfoldable pub resume_project : Value → Result DeixicError String
unfolding validation_error
resume_project v =
    if is_falsy v
    then (if is_text v "" then ok "" else refuse "Invalid projectResourceId")
    else identity v "projectResourceId"

-- The submission, with the turn, the sequence and the cursor that it goes with.
unfoldable pub resume_coordinates : Value → Value → ℕ → ℕ → Result DeixicError Submission
unfolding refuse_if validation_error
resume_coordinates submission turn_id sequence cursor =
    let unsent = not (is_text turn_id "") || not (sequence == 0) || not (cursor == 0) in
    if is_text submission "accepted"
    then (do
      t ← identity turn_id "turnId"
      refuse_if (sequence == 0) "Accepted checkpoint requires a positive sequence"
      ok accepted)
    else if is_text submission "prepared"
    then (do refuse_if unsent "Invalid submission coordinates"; ok prepared)
    else if is_text submission "unacknowledged"
    then (do refuse_if unsent "Invalid submission coordinates"; ok unacknowledged)
    else refuse "Invalid submission coordinates"

-- A text that has been checked to be one.
abbrev text_at : String → Fields → String
text_at name fs = elim (as_text (some (at name fs))) [ none ↦ "" | some s ↦ s ]

-- The checks of `resume`, in its order, on the fields of a checkpoint.
unfoldable pub resume_fields : Client → Fields → Result DeixicError Checkpoint
unfolding validation_error
resume_fields client fs = do
  voice ← resume_voice (at "schema" fs) (at "voiceSelection" fs)
  refuse_if
      (not (
        is_text (at "organizationId" fs) client.organization_id
        && is_text (at "workspaceId" fs) client.workspace_id
        && is_text (at "baseUrl" fs) client.base_url))
      "Checkpoint belongs to a different tenant or Platform URL"
  channel_id ← identity (at "channelId" fs) "channelId"
  idempotency_key ← identity (at "idempotencyKey" fs) "idempotencyKey"
  task_body ← body (at "body" fs)
  project_resource_id ← resume_project (at "projectResourceId" fs)
  sequence ← decimal (at "sequence" fs)
  cursor ← decimal (at "cursor" fs)
  submission ← resume_coordinates (at "submission" fs) (at "turnId" fs) sequence cursor
  ok (record {
    organization_id = text_at "organizationId" fs;
    workspace_id = text_at "workspaceId" fs;
    base_url = text_at "baseUrl" fs;
    channel_id = channel_id;
    body = task_body;
    idempotency_key = idempotency_key;
    project_resource_id = project_resource_id;
    submission = submission;
    turn_id = text_at "turnId" fs;
    sequence = text_at "sequence" fs;
    cursor = text_at "cursor" fs;
    voice_selection = voice;
  })

-- `TasksClient.resume`, up to the `Task` that it builds of the checkpoint
unfoldable pub resume : Client → Value → Result DeixicError Checkpoint
unfolding validation_error
resume client v = elim (as_dict (some v)) [
  | none ↦ refuse "Invalid task checkpoint fields"
  | some fs ↦
      if has_keys (expected_keys fs) fs
      then resume_fields client fs
      else refuse "Invalid task checkpoint fields"
]
