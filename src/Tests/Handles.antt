-- ===== src/Tests/Handles.antt =====
-- Runs of the voice selection, checkpoints and task handles.
use deixic_python.Base.{◌≡◌, refl, none, [], ◌∷◌, ok, strip}
use deixic_python.Base.Text.{text_dec, text_length, is_space, lstrip, rstrip}
use deixic_python.Base.Int.{pos}
use deixic_python.Base.Decimal.{all_digits, value, str_ℕ}
use deixic_python.Tasks.Voice.{VoiceSelection}
use deixic_python.Tasks.Types.{Checkpoint, Client, unacknowledged, accepted}
use deixic_python.Base.{◌≤◌, ◌↔◌}
use deixic_python.Tasks.Checks.Canonical.{decimal_iff}
use deixic_python.Value.{Value}
use deixic_python.Tasks.Checks.{decimal, max_cursor, is_identity, is_body, is_decimal}
use deixic_python.Tasks.Resume.{resume, to_value}
use deixic_python.Tasks.Resume.Valid.{IsValid}
use deixic_python.Tasks.Resume.RoundTrip.{resume-to_value}
use deixic_python.Tasks.Resume.Sound.{resume-IsValid}

abbrev pub client : Client
client = record { organization_id = "org"; workspace_id = "ws"; base_url = "https://api.example" }

abbrev pub saved : Checkpoint
saved = record {
  organization_id = "org";
  workspace_id = "ws";
  base_url = "https://api.example";
  channel_id = "c1";
  body = "Do it";
  idempotency_key = "k1";
  project_resource_id = "";
  submission = unacknowledged;
  turn_id = "";
  sequence = "0";
  cursor = "0";
  voice_selection = none;
}

abbrev pub accepted_checkpoint : Checkpoint
accepted_checkpoint = record saved {
  submission = accepted;
  turn_id = "t1";
  sequence = "4";
  cursor = "120";
}

pub saved-IsValid : IsValid client saved
unfolding is_identity is_body is_decimal strip lstrip rstrip is_space text_length text_dec
    all_digits value str_ℕ
saved-IsValid = record {
  organization = refl;
  workspace = refl;
  origin = refl;
  channel = refl;
  key = refl;
  request = refl;
  project = refl;
  sequence = refl;
  cursor = refl;
  coordinates = (refl, refl, refl);
  voice = tt;
}

resume-to_value_example : resume client (to_value saved) ≡ ok saved
resume-to_value_example = resume-to_value client saved saved-IsValid

resume-IsValid_example : IsValid client saved
resume-IsValid_example = resume-IsValid client (to_value saved) resume-to_value_example

abbrev selection : VoiceSelection
selection = record { mode = pos 2; voice_ids = "calm" ∷ []; tone_adjustments = pos 3 ∷ pos 1 ∷ [] }

abbrev sorted_selection : VoiceSelection
sorted_selection = record selection { tone_adjustments = pos 1 ∷ pos 3 ∷ [] }

decimal_iff_example :
    (decimal (Value.text "42") ≡ ok 42)
    ↔ ((Value.text "42" ≡ Value.text (str_ℕ 42)) × (42 ≤ max_cursor))
decimal_iff_example = decimal_iff (Value.text "42") 42
