-- ===== src/Tasks/Resume/RoundTrip.antt =====
-- A valid checkpoint is read back as it was written.
use Prim.Native.String.{String as Text}
use deixic_python.Base.{
  String, true, ◌||◌, ◌&&◌, ◌≡◌, refl, Option, none, some, arith, text_dec, is_empty, ok, all, any,
}
use deixic_python.Base.Text.{text_eq_iff}
use deixic_python.Base.Decimal.{value}
use deixic_python.Value.{Value, Fields, get}
use deixic_python.Tasks.Voice.{VoiceSelection, has_keys}
use deixic_python.Tasks.Voice.RoundTrip.{voice_from_checkpoint-ok, voice_checkpoint-ok}
use deixic_python.Tasks.Types.{Checkpoint, Client, Submission, prepared, unacknowledged, accepted}
use deixic_python.Tasks.Checks.{identity, is_identity, identity-ok, body-ok, decimal-ok}
use deixic_python.Tasks.Resume.{
  refuse_if, to_value, submission_text, schema_text, expected_keys, is_text, at, resume_voice,
  resume_project, resume_coordinates, resume_fields, resume,
}
use deixic_python.Tasks.Resume.Valid.{IsValid, Coordinates, VoiceIsNormal}

abbrev fields : Checkpoint → Fields
fields c = elim (to_value c) [ Value.dict fs ↦ fs | _ ↦ Fields.end ]

is_text-text : (s t : String) → s ≡ t → is_text (Value.text s) t ≡ true
is_text-text s t h = rw h ((text_eq_iff t t).1 refl)

resume_coordinates-ok :
    (submission : Submission) (turn sequence cursor : String)
    → Coordinates submission turn sequence cursor
    → resume_coordinates
        (Value.text (submission_text submission))
        (Value.text turn)
        (value 0 sequence)
        (value 0 cursor)
      ≡ ok submission
unfolding resume_coordinates identity text_dec
resume_coordinates-ok prepared turn sequence cursor (t, s, c) = rw (t, s, c)
resume_coordinates-ok unacknowledged turn sequence cursor (t, s, c) = rw (t, s, c)
resume_coordinates-ok accepted turn sequence cursor (t, s) =
    rw (identity-ok turn "turnId" t) (ground arith)

resume_project-ok :
    (s : String) → (is_empty s || is_identity s) ≡ true → resume_project (Value.text s) ≡ ok s
unfolding resume_project text_dec
resume_project-ok Text.[] h = refl
resume_project-ok (Text.◌∷◌ c s) h = identity-ok (Text.◌∷◌ c s) "projectResourceId" h

-- What `resume` reads of a checkpoint that has been written out.
record Written (c : Checkpoint) (fs : Fields) : Type 0 where
  schema : at "schema" fs ≡ Value.text (schema_text c.voice_selection)
  organization : at "organizationId" fs ≡ Value.text c.organization_id
  workspace : at "workspaceId" fs ≡ Value.text c.workspace_id
  origin : at "baseUrl" fs ≡ Value.text c.base_url
  channel : at "channelId" fs ≡ Value.text c.channel_id
  request : at "body" fs ≡ Value.text c.body
  key : at "idempotencyKey" fs ≡ Value.text c.idempotency_key
  project : at "projectResourceId" fs ≡ Value.text c.project_resource_id
  submission : at "submission" fs ≡ Value.text (submission_text c.submission)
  turn : at "turnId" fs ≡ Value.text c.turn_id
  sequence : at "sequence" fs ≡ Value.text c.sequence
  cursor : at "cursor" fs ≡ Value.text c.cursor
  keys : has_keys (expected_keys fs) fs ≡ true

keys-ok :
    (c : Checkpoint) (v : Option VoiceSelection)
    → let d : Checkpoint = record c { voice_selection = v } in
      has_keys (expected_keys (fields d)) (fields d) ≡ true
unfolding to_value get text_dec has_keys all any
keys-ok c none = refl
keys-ok c (some v) = refl

fields-Written : (c : Checkpoint) → Written c (fields c)
unfolding to_value get text_dec has_keys
fields-Written c = record {
  schema = refl;
  organization = refl;
  workspace = refl;
  origin = refl;
  channel = refl;
  request = refl;
  key = refl;
  project = refl;
  submission = refl;
  turn = refl;
  sequence = refl;
  cursor = refl;
  keys = keys-ok c c.voice_selection;
}

resume_voice-ok :
    (c : Checkpoint) (v : Option VoiceSelection)
    → VoiceIsNormal v
    → resume_voice
        (Value.text (schema_text v))
        (at "voiceSelection" (fields (record c { voice_selection = v })))
      ≡ ok v
unfolding resume_voice text_dec to_value get
resume_voice-ok c none h = refl
resume_voice-ok c (some v) h = rw (voice_from_checkpoint-ok v h, voice_checkpoint-ok v h)

tenant-ok :
    (a b c d e f : String)
    → a ≡ b
    → c ≡ d
    → e ≡ f
    → (is_text (Value.text a) b && is_text (Value.text c) d && is_text (Value.text e) f) ≡ true
tenant-ok a b c d e f p q r = rw (is_text-text a b p, is_text-text c d q, is_text-text e f r)

module _ (client : Client) (c : Checkpoint) (valid : IsValid client c) where
  w : Written c (fields c)
  w = fields-Written c

  resume_fields-ok : resume_fields client (fields c) ≡ ok c
  unfolding resume_fields refuse_if
  resume_fields-ok =
      rw
        (
          resume_fields,
          w.schema,
          resume_voice-ok c c.voice_selection valid.voice,
          w.organization,
          w.workspace,
          w.origin,
          tenant-ok _ _ _ _ _ _ valid.organization valid.workspace valid.origin,
          w.channel,
          identity-ok c.channel_id "channelId" valid.channel,
          w.key,
          identity-ok c.idempotency_key "idempotencyKey" valid.key,
          w.request,
          body-ok c.body valid.request,
          w.project,
          resume_project-ok c.project_resource_id valid.project,
          w.sequence,
          decimal-ok c.sequence valid.sequence,
          w.cursor,
          decimal-ok c.cursor valid.cursor,
          w.submission,
          w.turn,
          resume_coordinates-ok c.submission c.turn_id c.sequence c.cursor valid.coordinates,
        )
        (unfold to_value get text_dec in refl)

  -- A valid checkpoint that has been written out is accepted by its client and read back unchanged.
  pub resume-to_value : resume client (to_value c) ≡ ok c
  unfolding resume to_value
  resume-to_value = rw w.keys resume_fields-ok
