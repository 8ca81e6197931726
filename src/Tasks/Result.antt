-- ===== src/Tasks/Result.antt =====
-- `Task._result`: what the owner's thread says of the accepted turn.
pub mod Served
pub mod Reads
pub mod Completed
use deixic_python.Base.{
  ℕ, zero, suc, String, Bool, true, false, not, ◌||◌, Option, none, some, List, [], ◌∷◌, ◌++◌, any,
  text_eq, is_empty, truthy, if◌then◌else◌, Result, ok, err, pure, raise, gets, ◌>>=◌, ◌>>◌,
}
use deixic_python.Base.Int.{ℤ, ◌==ℤ◌}
use deixic_python.Errors.{plain_error, Kind, protocol}
use deixic_python.Tasks.Types.{
  Checkpoint, TaskEvent, TaskTurn, TurnState, TaskMessage, Role, assistant, Receipt, ThreadPage,
  Submission, Status, TaskResult, brief, Raised, deixic,
}
use deixic_python.Tasks.Platform.{
  Platform, ThreadRequest, ReceiptRequest, Call, Session, Run, call, raise_protocol_if, stored_int,
  remaining,
}
use deixic_python.Tasks.Backfill.{waiting_request}

-- `next((item for item in page.turns if item.turn_id == turn_id), None)`
unfoldable pub find_turn : String → List TaskTurn → Option TaskTurn
find_turn turn_id [] = none
find_turn turn_id (t ∷ ts) = if text_eq t.turn_id turn_id then some t else find_turn turn_id ts

-- `messages.get(id)`, where `setdefault` has filled the dict in the list's order
unfoldable pub find_message : String → List TaskMessage → Option TaskMessage
find_message id [] = none
find_message id (m ∷ ms) = if text_eq m.id id then some m else find_message id ms

abbrev pub is_renumbered : ℤ → Option TaskTurn → Bool
is_renumbered sequence none = false
is_renumbered sequence (some t) = not (t.sequence ==ℤ sequence)

-- `if turn is None: turn = _copy(candidate)`
abbrev pub first_of : Option TaskTurn → Option TaskTurn → Option TaskTurn
first_of none candidate = candidate
first_of (some t) candidate = some t

abbrev pub is_completed : TurnState → Bool
is_completed TurnState.completed = true
is_completed _ = false

abbrev pub is_known : Option TaskMessage → Bool
is_known none = false
is_known (some m) = true

-- Whether no further page is needed.
unfoldable pub is_enough : Option TaskTurn → List TaskMessage → Bool
is_enough none messages = false
is_enough (some t) messages =
    not (is_completed t.state)
    || is_empty t.assistant_message_id
    || is_known (find_message t.assistant_message_id messages)

-- The status of a turn's state.
abbrev pub status_of : TurnState → Status
status_of TurnState.completed = Status.completed
status_of TurnState.responded = Status.responded
status_of TurnState.failed = Status.failed
status_of TurnState.interrupted = Status.interrupted
status_of TurnState.waiting = Status.waiting
status_of (TurnState.other n) = Status.unfinished

-- `dict.fromkeys(xs)`: the first of each.
unfoldable pub without : String → List String → List String
without x [] = []
without x (y ∷ ys) = if text_eq y x then without x ys else y ∷ without x ys

unfoldable pub distinct : List String → List String
distinct [] = []
distinct (x ∷ xs) = x ∷ without x (distinct xs)

abbrev pub reason_of : Option TaskEvent → String
reason_of none = "request_not_visible"
reason_of (some e) = ""

abbrev pub is_assistant : Role → Bool
is_assistant Role.assistant = true
is_assistant (Role.other n) = false

-- The linked message, where it is the assistant's.
abbrev pub linked : Option TaskMessage → Option TaskMessage
linked none = none
linked (some m) = if is_assistant m.role then some m else none

-- What the loop over the pages knows.
pub record Scan : Type 0 where
  pub turn : Option TaskTurn
  pub messages : List TaskMessage
  pub page_token : String
  pub seen : List String

abbrev pub add_page : String → ThreadPage → Scan → Scan
add_page turn_id page scan = record scan {
  turn = first_of scan.turn (find_turn turn_id page.turns);
  messages = scan.messages ++ page.messages;
}

abbrev pub next_token : String → Scan → Scan
next_token token scan = record scan { page_token = token; seen = token ∷ scan.seen }

module _ (P : Platform) (on_checkpoint : Option (Checkpoint → Call P.World (Unit {0})))
    (on_event : Option (TaskEvent → Call P.World (Unit {0}))) where
  -- One page of `threads.get`, with the checks of its identity and of the turn's sequence.
  unfoldable pub thread_page : Option ℕ → String → ℤ → Scan → Run P.World ThreadPage
  thread_page deadline turn_id sequence scan = do
    c ← gets (λ s. s.task.checkpoint)
    timeout ← remaining P deadline
    page ← call (
        P.get_thread (record {
          channel_id = c.channel_id;
          limit = 200;
          page_token = scan.page_token;
          timeout = timeout;
        }))
    raise_protocol_if (not (text_eq page.thread_id c.channel_id))
        "Thread lookup changed the channel identity"
    raise_protocol_if (is_renumbered sequence (find_turn turn_id page.turns))
        "Thread lookup changed the accepted turn sequence"
    pure page

  -- The loop over the pages; none where their bound is met.
  unfoldable pub scan_thread : ℕ → Option ℕ → String → ℤ → Scan → Run P.World (Option Scan)
  scan_thread zero deadline turn_id sequence scan = pure none
  scan_thread (suc pages) deadline turn_id sequence scan = do
    page ← thread_page deadline turn_id sequence scan
    let known = add_page turn_id page scan
    let token = page.next_page_token
    elim (is_enough known.turn known.messages || is_empty token) [
      | true ↦ pure (some known)
      | false ↦ do
        raise_protocol_if (any (text_eq token) known.seen) "Thread pagination repeated a page token"
        scan_thread pages deadline turn_id sequence (next_token token known)
    ]

  -- The loop over the receipts of the message.
  unfoldable pub read_receipts : Option ℕ → List String → Run P.World (List Receipt)
  read_receipts deadline [] = pure []
  read_receipts deadline (id ∷ ids) = do
    c ← gets (λ s. s.task.checkpoint)
    timeout ← remaining P deadline
    receipt ←
        call
          (P.get_receipt (record { channel_id = c.channel_id; receipt_id = id; timeout = timeout }))
    raise_protocol_if (not (text_eq receipt.id id)) "Receipt lookup changed the receipt identity"
    rest ← read_receipts deadline ids
    pure (receipt ∷ rest)

  -- The result of a completed turn, from its linked message.
  unfoldable pub completed_result :
      Option ℕ → String → TaskTurn → Option TaskMessage → Run P.World TaskResult
  completed_result deadline turn_id turn none =
      raise
        (deixic (plain_error "Completed turn omitted its linked final assistant message" protocol))
  completed_result deadline turn_id turn (some m) = do
    event ← gets (λ s. s.task.event)
    receipts ← read_receipts deadline (distinct m.receipt_ids)
    pure (record (brief Status.completed turn_id "") {
      body = some m.body;
      message = some m;
      receipts = receipts;
      turn = some turn;
      event = event;
    })

  -- The result of a turn that is there, by its status.
  unfoldable pub status_result :
      ℕ → Option ℕ → String → TaskTurn → List TaskMessage → Status → Run P.World TaskResult
  status_result pages deadline turn_id turn messages Status.waiting = do
    event ← waiting_request P on_checkpoint on_event pages deadline turn
    pure (record (brief Status.waiting turn_id (reason_of event)) {
      turn = some turn;
      event = event;
    })
  status_result pages deadline turn_id turn messages Status.completed =
      completed_result deadline turn_id turn
        (linked (find_message turn.assistant_message_id messages))
  status_result pages deadline turn_id turn messages status = do
    event ← gets (λ s. s.task.event)
    pure (record (brief status turn_id "") { turn = some turn; event = event })

  unfoldable pub found_result :
      ℕ → Option ℕ → String → Option TaskTurn → List TaskMessage → Run P.World TaskResult
  found_result pages deadline turn_id none messages =
      pure (brief Status.unfinished turn_id "turn_not_visible")
  found_result pages deadline turn_id (some turn) messages =
      status_result pages deadline turn_id turn messages (status_of turn.state)

  -- Behind the loop over the pages.
  unfoldable pub scanned_result : ℕ → Option ℕ → String → Option Scan → Run P.World TaskResult
  scanned_result pages deadline turn_id none =
      pure (brief Status.unfinished turn_id "result_page_limit")
  scanned_result pages deadline turn_id (some scan) =
      found_result pages deadline turn_id scan.turn scan.messages

  -- The result of an accepted submission.
  unfoldable pub observed : ℕ → Option ℕ → Run P.World TaskResult
  observed pages deadline = do
    c ← gets (λ s. s.task.checkpoint)
    sequence ← stored_int c.sequence
    found ←
        scan_thread pages deadline c.turn_id sequence
          (record { turn = none; messages = []; page_token = ""; seen = [] })
    scanned_result pages deadline c.turn_id found

  unfoldable pub submission_result : ℕ → Option ℕ → Submission → Run P.World TaskResult
  submission_result pages deadline Submission.prepared =
      pure (brief Status.prepared "" "submit_required")
  submission_result pages deadline Submission.unacknowledged =
      pure (brief Status.unacknowledged "" "explicit_replay_required")
  submission_result pages deadline Submission.accepted = observed pages deadline

  -- `Task._result`
  unfoldable pub result_from : ℕ → Option ℕ → Run P.World TaskResult
  result_from pages deadline = do
    submission ← gets (λ s. s.task.checkpoint.submission)
    submission_result pages deadline submission
