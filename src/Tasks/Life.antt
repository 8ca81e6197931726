-- ===== src/Tasks/Life.antt =====
-- The life of a task handle, as an application sees it.
pub mod Calls
use deixic_python.Base.{
  ℕ, zero, suc, ◌≤◌, String, Bool, true, false, not, ◌||◌, ◌≡◌, refl, sym, ap, ◌∙◌, ◌⊎◌, inl, inr,
  Option, none, some, List, [], ◌∷◌, Bool-cases, arith, Result, ok, err,
}
use deixic_python.Base.Int.{ℤ, pos, negsuc, leb_ℤ, ltb_ℤ}
use deixic_python.Base.Decimal.{str}
use deixic_python.Base.Post.{Post, returned, raised, Post-bind, Post-state}
use deixic_python.Value.{Value}
use deixic_python.Tasks.Voice.{VoiceSelection}
use deixic_python.Tasks.Types.{
  Checkpoint, Submission, prepared, unacknowledged, accepted, Accepted, TaskEvent, TaskResult,
  Raised,
}
use deixic_python.Tasks.Checks.{pages}
use deixic_python.Tasks.Platform.{Platform, Call, Session, checked}
use deixic_python.Tasks.Platform.Steps.{checks}
use deixic_python.Tasks.Submit.{
  submit_from, mark_unacknowledged, mark_accepted, is_bad_turn, same_submission,
}
use deixic_python.Tasks.Submit.Outcome.{
  Answered, IsAccepted, IsAttempted, is_refused, refused-eq, submit_from-Post,
}
use deixic_python.Tasks.Backfill.{advance}
use deixic_python.Tasks.Backfill.Progress.{IsPast}
use deixic_python.Tasks.Result.{result_from}
use deixic_python.Tasks.Result.Completed.{result_from-task}
use deixic_python.Tasks.Wait.{result}
use deixic_python.Tasks.Wait.Loop.{Timer, wait}
use deixic_python.Tasks.Wait.Loop.Watched.{wait-Shown}

-- What an application sees of a submission: an accepted one has a turn, with its sequence.
pub data Stage : Type 0 where
  unsent : Stage
  unanswered : Stage
  running : String → String → Stage

abbrev pub staged : Submission → String → String → Stage
staged prepared turn_id sequence = unsent
staged unacknowledged turn_id sequence = unanswered
staged accepted turn_id sequence = running turn_id sequence

abbrev pub stage_of : Checkpoint → Stage
stage_of c = staged c.submission c.turn_id c.sequence

-- What a stage may lead to: nothing leaves a running turn.
pub data Leads : Stage → Stage → Type 0 where
  stays : {a : Stage} → Leads a a
  attempts : Leads unsent unanswered
  starts : {turn_id sequence : String} → Leads unsent (running turn_id sequence)
  replays : {turn_id sequence : String} → Leads unanswered (running turn_id sequence)

Leads-trans : {a b c : Stage} → Leads a b → Leads b c → Leads a c
Leads-trans stays q = q
Leads-trans attempts stays = attempts
Leads-trans attempts replays = starts
Leads-trans starts stays = starts
Leads-trans replays stays = replays

-- What a submission sends, and the client that it is sent by.
pub record SameRequest (c d : Checkpoint) : Type 0 where
  pub same_organization : d.organization_id ≡ c.organization_id
  pub same_workspace : d.workspace_id ≡ c.workspace_id
  pub same_origin : d.base_url ≡ c.base_url
  pub same_channel : d.channel_id ≡ c.channel_id
  pub same_body : d.body ≡ c.body
  pub same_key : d.idempotency_key ≡ c.idempotency_key
  pub same_project : d.project_resource_id ≡ c.project_resource_id
  pub same_voice : d.voice_selection ≡ c.voice_selection

-- A later checkpoint of the same submission, with a cursor that is a number.
pub record Follows (c d : Checkpoint) : Type 0 where
  pub leads : Leads (stage_of c) (stage_of d)
  pub request : SameRequest c d
  pub at : ℕ
  pub at_cursor : d ≡ advance (pos at) d

abbrev pub HasCursor : Checkpoint → Type 0
HasCursor c = (n : ℕ) × (c ≡ advance (pos n) c)

pub Follows-refl : (c : Checkpoint) → HasCursor c → Follows c c
Follows-refl c (n, e) = record {
  leads = stays;
  request = record {
    same_organization = refl;
    same_workspace = refl;
    same_origin = refl;
    same_channel = refl;
    same_body = refl;
    same_key = refl;
    same_project = refl;
    same_voice = refl;
  };
  at = n;
  at_cursor = e;
}

pub Follows-trans : (c d e : Checkpoint) → Follows c d → Follows d e → Follows c e
Follows-trans c d e p q = record {
  leads = Leads-trans p.leads q.leads;
  request = record {
    same_organization = q.request.same_organization ∙ p.request.same_organization;
    same_workspace = q.request.same_workspace ∙ p.request.same_workspace;
    same_origin = q.request.same_origin ∙ p.request.same_origin;
    same_channel = q.request.same_channel ∙ p.request.same_channel;
    same_body = q.request.same_body ∙ p.request.same_body;
    same_key = q.request.same_key ∙ p.request.same_key;
    same_project = q.request.same_project ∙ p.request.same_project;
    same_voice = q.request.same_voice ∙ p.request.same_voice;
  };
  at = q.at;
  at_cursor = q.at_cursor;
}

-- Another submission, with its coordinates and a cursor.
abbrev pub revised : Submission → String → String → String → Checkpoint → Checkpoint
revised submission turn_id sequence cursor c = record c {
  submission = submission;
  turn_id = turn_id;
  sequence = sequence;
  cursor = cursor;
}

pub revised-Follows :
    (c : Checkpoint) (submission : Submission) (turn_id sequence : String) (n : ℕ)
    → Leads (stage_of c) (staged submission turn_id sequence)
    → Follows c (revised submission turn_id sequence (str (pos n)) c)
revised-Follows c submission turn_id sequence n l = record {
  leads = l;
  request = record {
    same_organization = refl;
    same_workspace = refl;
    same_origin = refl;
    same_channel = refl;
    same_body = refl;
    same_key = refl;
    same_project = refl;
    same_voice = refl;
  };
  at = n;
  at_cursor = refl;
}

-- The submission that `submit` or `replay` requires.
abbrev pub required_of : Bool → Submission
required_of true = unacknowledged
required_of false = prepared

opens :
    (x : Submission) (again : Bool) (t q : String)
    → same_submission x (required_of again) ≡ true
    → Leads (staged x t q) unanswered × ((u r : String) → Leads (staged x t q) (running u r))
opens prepared again t q h = (attempts, λ u r. starts)
opens unacknowledged again t q h = (stays, λ u r. replays)
opens accepted true t q h = cc
opens accepted false t q h = cc

natural : (z : ℤ) → ltb_ℤ z (pos 0) ≡ false → (n : ℕ) × (z ≡ pos n)
natural (pos n) h = (n, refl)
natural (negsuc n) h = ground arith

usable-cursor : (a : Accepted) → is_bad_turn a ≡ false → ltb_ℤ a.replay_cursor (pos 0) ≡ false
unfolding is_bad_turn
usable-cursor a h = ground arith

pub allowed-same : (busy same : Bool) → (busy || not same) ≡ false → same ≡ true
allowed-same busy same h = ground arith

pub attempted-Follows :
    (P : Platform) (on_checkpoint : Option (Checkpoint → Call P.World (Unit {0}))) (again : Bool)
    (c d : Checkpoint)
    → HasCursor c
    → same_submission c.submission (required_of again) ≡ true
    → IsAttempted P on_checkpoint c d
    → Follows c d
attempted-Follows P on_checkpoint again c d (n, e) h x = elim x [
  | inl marked ↦
      let moved : d ≡ revised unacknowledged c.turn_id c.sequence (str (pos n)) c =
        marked ∙ ap mark_unacknowledged e in
      rw moved (
        revised-Follows c unacknowledged c.turn_id c.sequence n
          (opens c.submission again c.turn_id c.sequence h).0)
  | inr (a, answered, taken) ↦
      let (m, natural_cursor) = natural a.replay_cursor (usable-cursor a answered.usable) in
      let moved : d ≡ revised accepted a.turn_id (str a.sequence) (str (pos m)) c =
        taken ∙ ap (λ z. revised accepted a.turn_id (str a.sequence) (str z) c) natural_cursor in
      rw moved (
        revised-Follows c accepted a.turn_id (str a.sequence) m
          ((opens c.submission again c.turn_id c.sequence h).1 a.turn_id (str a.sequence)))
]
