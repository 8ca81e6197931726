-- ===== src/Tasks/Types.antt =====
-- The messages that tasks.py reads, checkpoints, task results, and the exceptions that cross it.
use deixic_python.Base.{ℕ, String, Bool, Option, none, List, []}
use deixic_python.Base.Int.{ℤ}
use deixic_python.Errors.{DeixicError}
use deixic_python.Tasks.Voice.{VoiceSelection}

-- Enums of the messages: the values that the source names, and all others.
pub data TurnState : Type 0 where
  completed responded failed interrupted waiting : TurnState
  other : ℕ → TurnState

pub data WaitingReason : Type 0 where
  approval user_input client_tool external_retry : WaitingReason
  other : ℕ → WaitingReason

pub data RequestKind : Type 0 where
  approval user_input client_tool external_retry : RequestKind
  other : ℕ → RequestKind

pub data Role : Type 0 where
  assistant : Role
  other : ℕ → Role

-- `pb.TaskEvent`, the fields that the source reads
pub record TaskEvent : Type 0 where
  pub id : String
  pub cursor : ℤ
  pub turn_id : String
  pub kind : ℕ
  pub request_id : String
  pub request_kind : RequestKind
  pub call_id : String

-- `pb.TaskTurn`
pub record TaskTurn : Type 0 where
  pub turn_id : String
  pub sequence : ℤ
  pub state : TurnState
  pub assistant_message_id : String
  pub first_cursor : ℤ
  pub waiting_reason : WaitingReason
  pub error_code : String

-- `pb.TaskMessage`
pub record TaskMessage : Type 0 where
  pub id : String
  pub role : Role
  pub body : String
  pub receipt_ids : List String

-- `pb.Receipt`
pub record Receipt : Type 0 where
  pub id : String
  pub kind : String
  pub state : ℕ

-- `pb.SubmitTaskResponse`
pub record Accepted : Type 0 where
  pub turn_id : String
  pub sequence : ℤ
  pub replay_cursor : ℤ

-- `pb.GetThreadResponse`
pub record ThreadPage : Type 0 where
  pub thread_id : String
  pub turns : List TaskTurn
  pub messages : List TaskMessage
  pub next_page_token : String

-- `pb.ListEventsResponse`. The snapshot is given by its `replay_cursor`, none where the field is unset.
pub record EventPage : Type 0 where
  pub events : List TaskEvent
  pub next_cursor : ℤ
  pub has_more : Bool
  pub reset_required : Bool
  pub snapshot : Option ℤ

-- The `submission` of a checkpoint.
pub data Submission : Type 0 where
  prepared unacknowledged accepted : Submission

-- `TaskCheckpoint`. The schema is `deixic.task.v2` where a voice selection is kept, else
-- `deixic.task.v1`; sequence and cursor are decimal texts.
pub record Checkpoint : Type 0 where
  pub organization_id : String
  pub workspace_id : String
  pub base_url : String
  pub channel_id : String
  pub body : String
  pub idempotency_key : String
  pub project_resource_id : String
  pub submission : Submission
  pub turn_id : String
  pub sequence : String
  pub cursor : String
  pub voice_selection : Option VoiceSelection

-- The tenant and origin that a client is fixed to.
pub record Client : Type 0 where
  pub organization_id : String
  pub workspace_id : String
  pub base_url : String

pub data Status : Type 0 where
  prepared unacknowledged unfinished responded waiting completed failed interrupted : Status

-- `TaskResult`
pub record TaskResult : Type 0 where
  pub status : Status
  pub turn_id : String
  pub reason : String
  pub body : Option String
  pub message : Option TaskMessage
  pub receipts : List Receipt
  pub turn : Option TaskTurn
  pub event : Option TaskEvent
  pub error : Option DeixicError

-- `TaskResult(status, turn_id, reason)`
abbrev pub brief : Status → String → String → TaskResult
brief status turn_id reason = record {
  status = status;
  turn_id = turn_id;
  reason = reason;
  body = none;
  message = none;
  receipts = [];
  turn = none;
  event = none;
  error = none;
}

-- The exceptions: the SDK's, `_DeadlineReached`, `_ApplicationCallbackError` with the original, the
-- `ValueError` of `int`, and those of the application and of libraries, by their names.
pub data Raised : Type 0 where
  deixic : DeixicError → Raised
  deadline_reached : Raised
  callback_failed : Raised → Raised
  value_error : Raised
  foreign : String → Raised
