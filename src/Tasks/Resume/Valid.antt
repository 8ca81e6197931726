-- ===== src/Tasks/Resume/Valid.antt =====
-- The checkpoints that a client accepts back.
use deixic_python.Base.{◌<◌, String, true, ◌||◌, ◌≡◌, Option, none, some, is_empty}
use deixic_python.Base.Decimal.{value}
use deixic_python.Tasks.Voice.{VoiceSelection}
use deixic_python.Tasks.Voice.RoundTrip.{IsNormal}
use deixic_python.Tasks.Types.{Checkpoint, Client, Submission, prepared, unacknowledged, accepted}
use deixic_python.Tasks.Checks.{is_identity, is_body, is_decimal}

-- What the submission demands of the turn, the sequence and the cursor.
abbrev pub Coordinates : Submission → String → String → String → Type 0
Coordinates prepared turn sequence cursor =
    (turn ≡ "") × (value 0 sequence ≡ 0) × (value 0 cursor ≡ 0)
Coordinates unacknowledged turn sequence cursor =
    (turn ≡ "") × (value 0 sequence ≡ 0) × (value 0 cursor ≡ 0)
Coordinates accepted turn sequence cursor = (is_identity turn ≡ true) × (0 < value 0 sequence)

-- A selection that normalisation leaves alone.
abbrev pub VoiceIsNormal : Option VoiceSelection → Type 0
VoiceIsNormal none = Unit
VoiceIsNormal (some v) = IsNormal v

pub record IsValid (client : Client) (c : Checkpoint) : Type 0 where
  pub organization : c.organization_id ≡ client.organization_id
  pub workspace : c.workspace_id ≡ client.workspace_id
  pub origin : c.base_url ≡ client.base_url
  pub channel : is_identity c.channel_id ≡ true
  pub key : is_identity c.idempotency_key ≡ true
  pub request : is_body c.body ≡ true
  pub project : (is_empty c.project_resource_id || is_identity c.project_resource_id) ≡ true
  pub sequence : is_decimal c.sequence ≡ true
  pub cursor : is_decimal c.cursor ≡ true
  pub coordinates : Coordinates c.submission c.turn_id c.sequence c.cursor
  pub voice : VoiceIsNormal c.voice_selection
