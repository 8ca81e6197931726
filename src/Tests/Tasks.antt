-- ===== src/Tests/Tasks.antt =====
-- Runs of a task handle against a server with one task.
use deixic_python.Base.{
  ◌≤◌, ℕ, suc, false, ◌≡◌, refl, ◌⊎◌, inr, none, some, [], ◌∷◌, Result, ok, err, any, arith, strip,
}
use deixic_python.Base.Text.{text_dec, text_length, is_space, lstrip, rstrip}
use deixic_python.Base.Int.{pos, max_ℤ}
use deixic_python.Base.Decimal.{all_digits, is_digit, value, str_ℕ, str, int}
use deixic_python.Tasks.Types.{
  Checkpoint, deixic, Submission, prepared, unacknowledged, Accepted, TaskEvent, TaskTurn,
  TurnState, WaitingReason, RequestKind, TaskMessage, Role, ThreadPage, EventPage, TaskResult,
  Status, Raised,
}
use deixic_python.Tasks.Platform.{
  Platform, SubmitRequest, Session, save, application_call, remaining,
}
use deixic_python.Tasks.Checks.{is_identity, is_body, is_decimal, identity, body}
use deixic_python.Tasks.Submit.{
  new_task, submit, submit_from, submit_body, transmit, accept, saved_voice, is_bad_turn,
  prepare_checkpoint, prepare_project, prepare_voice,
}
use deixic_python.Tasks.Submit.Outcome.{
  submit-submit, submit_from-ok, submit_from-err, IsAccepted, IsAttempted, already_attempted,
}
use deixic_python.Tasks.Submit.Valid.{submit_from-IsValid, prepare_checkpoint-IsValid, IsInt64}
use deixic_python.Tasks.Resume.Valid.{IsValid}
use deixic_python.Tasks.Pages.{
  page_refusal, watermark, event_refusal, conflicts, sort_events, insert_event,
}
use deixic_python.Tasks.Pages.Accepted.{IsSound, page_refusal-IsSound}
use deixic_python.Tasks.Backfill.{backfill, next_page, consume, deliver, notify, is_skipped}
use deixic_python.Tasks.Backfill.Progress.{IsPast, backfill-IsPast}
use deixic_python.Tasks.Result.{
  result_from, submission_result, observed, scan_thread, thread_page, find_turn, find_message,
  is_enough, scanned_result, found_result, status_result, completed_result, read_receipts, distinct,
  without,
}
use deixic_python.Tasks.Result.Completed.{
  result_from-task, result_from-IsComplete, IsComplete, IsShown,
}
use deixic_python.Errors.{plain_error, Kind}
use deixic_python.Tasks.Wait.{finished, again, round, attempt, handled, is_cancelled}
use deixic_python.Tasks.Wait.Observed.{round-again}
use deixic_python.Tests.Handles.{client, saved, accepted_checkpoint, saved-IsValid}

abbrev answer : Accepted
answer = record { turn_id = "t1"; sequence = pos 4; replay_cursor = pos 120 }

abbrev pub progress : TaskEvent
progress = record {
  id = "e1";
  cursor = pos 121;
  turn_id = "t1";
  kind = 1;
  request_id = "";
  request_kind = RequestKind.other 0;
  call_id = "";
}

abbrev turn : TaskTurn
turn = record {
  turn_id = "t1";
  sequence = pos 4;
  state = TurnState.completed;
  assistant_message_id = "m1";
  first_cursor = pos 120;
  waiting_reason = WaitingReason.other 0;
  error_code = "";
}

abbrev message : TaskMessage
message = record { id = "m1"; role = Role.assistant; body = "Done"; receipt_ids = "r1" ∷ "r1" ∷ [] }

abbrev thread : ThreadPage
thread = record {
  thread_id = "c1";
  turns = turn ∷ [];
  messages = message ∷ [];
  next_page_token = "";
}

abbrev events : EventPage
events = record {
  events = progress ∷ [];
  next_cursor = pos 121;
  has_more = false;
  reset_required = false;
  snapshot = none;
}

-- The world counts the calls.
abbrev pub server : Platform
server = record {
  World = ℕ;
  send = λ q w. (ok answer, suc w);
  get_thread = λ q w. (ok thread, suc w);
  list_events = λ q w. (ok events, suc w);
  get_receipt = λ q w. (ok (record { id = q.receipt_id; kind = "file"; state = 1 }), suc w);
  monotonic = λ w. (w, w);
  serialize = λ e. [];
}

abbrev pub start : Session ℕ
start = record { task = new_task (record saved { submission = prepared }); world = 0 }

abbrev pub running : Session ℕ
running = record { task = new_task accepted_checkpoint; world = 1 }

submit-start : submit server none start ≡ (ok tt, running)
unfolding submit submit_from submit_body transmit accept save saved_voice is_bad_turn is_identity
    strip lstrip rstrip is_space text_dec str str_ℕ
submit-start = refl

submit-submit_example :
    submit server none (submit server none start).1
    ≡ (err already_attempted, (submit server none start).1)
submit-submit_example = submit-submit server none start

submit_from-ok_example :
    (false ≡ false) × IsAccepted server none start.task.checkpoint running.task.checkpoint
unfolding submit
submit_from-ok_example = submit_from-ok server none prepared start running submit-start

-- The store of the application fails.
abbrev full_disk : Checkpoint → ℕ → Result Raised (Unit {0}) × ℕ
full_disk c w = (err (Raised.foreign "OSError"), w)

abbrev stopped : Session ℕ
stopped = record { task = new_task saved; world = 0 }

submit-full_disk :
    submit_from server (some full_disk) prepared start ≡ (err (Raised.foreign "OSError"), stopped)
unfolding submit_from submit_body save
submit-full_disk = refl

submit_from-err_example :
    (stopped ≡ start)
    ⊎ ((false ≡ false)
        × IsAttempted server (some full_disk) start.task.checkpoint stopped.task.checkpoint)
submit_from-err_example =
    submit_from-err server (some full_disk) prepared start stopped (Raised.foreign "OSError")
      submit-full_disk

answers : (q : SubmitRequest) (w v : ℕ) (a : Accepted) → server.send q w ≡ (ok a, v) → IsInt64 a
answers q w v a h = record { sequence_fits = ground arith; cursor_fits = ground arith }

submit_from-IsValid_example :
    IsValid client (submit_from server none unacknowledged stopped).1.task.checkpoint
submit_from-IsValid_example =
    submit_from-IsValid server none client answers unacknowledged stopped (inr refl) saved-IsValid

prepare_checkpoint-saved :
    prepare_checkpoint client "c1" "Do it" "k1" "" none
    ≡ ok (record saved { submission = prepared })
unfolding prepare_checkpoint prepare_project prepare_voice identity body is_identity is_body strip
    lstrip rstrip is_space text_length text_dec
prepare_checkpoint-saved = refl

prepare_checkpoint-IsValid_example :
    (Submission.prepared ≡ Submission.prepared)
    × IsValid client (record saved { submission = prepared })
prepare_checkpoint-IsValid_example =
    prepare_checkpoint-IsValid client "c1" "Do it" "k1" "" none prepare_checkpoint-saved

page_refusal-IsSound_example : IsSound server.serialize events (pos 120)
unfolding page_refusal watermark event_refusal conflicts max_ℤ
page_refusal-IsSound_example = page_refusal-IsSound server.serialize events (pos 120) refl

backfill-cursor : (backfill server none none 3 none running).1.task.checkpoint.cursor ≡ "121"
unfolding backfill next_page consume deliver notify is_skipped page_refusal watermark event_refusal
    conflicts max_ℤ sort_events insert_event save application_call remaining int str str_ℕ
    all_digits is_digit value text_dec any
backfill-cursor = refl

backfill-IsPast_example :
    IsPast accepted_checkpoint 120 (backfill server none none 3 none running).1.task.checkpoint
unfolding is_decimal str_ℕ value all_digits is_digit text_length text_dec
backfill-IsPast_example = backfill-IsPast server none none 3 none running refl

result_from-task_example : (result_from server none none 2 none running).1.task ≡ running.task
result_from-task_example = result_from-task server none none 2 none running

abbrev done : TaskResult
done = record {
  status = Status.completed;
  turn_id = "t1";
  reason = "";
  body = some "Done";
  message = some message;
  receipts = record { id = "r1"; kind = "file"; state = 1 } ∷ [];
  turn = some turn;
  event = none;
  error = none;
}

result_from-done :
    result_from server none none 2 none running ≡ (ok done, record running { world = 3 })
unfolding result_from submission_result observed scan_thread thread_page find_turn find_message
    is_enough scanned_result found_result status_result completed_result read_receipts distinct
    without remaining int all_digits is_digit value text_dec any
result_from-done = refl

result_from-IsComplete_example :
    IsComplete accepted_checkpoint done × IsShown server accepted_checkpoint done
result_from-IsComplete_example =
    result_from-IsComplete server none none 2 none running (record running { world = 3 }) done
      result_from-done refl

abbrev pub done_behind : TaskResult
done_behind = record done { event = some progress }

-- A round of `wait` at tick 1, before its deadline at 60, ends with the result.
round-done : round server none none none 3 60 3 0 running ≡ (
  ok (finished done_behind),
  record {
    task = record running.task {
      checkpoint = record accepted_checkpoint { cursor = "121" };
      event = some progress;
    };
    world = 4;
  },
)
unfolding round attempt handled is_cancelled result_from submission_result observed scan_thread
    thread_page find_turn find_message is_enough scanned_result found_result status_result
    completed_result read_receipts distinct without backfill next_page consume deliver notify
    is_skipped page_refusal watermark event_refusal conflicts max_ℤ sort_events insert_event save
    application_call remaining int str str_ℕ all_digits is_digit value text_dec any
round-done = refl

-- A server that cannot be reached.
abbrev pub unreachable : Platform
unreachable = record server {
  list_events = λ q w. (err (deixic (plain_error "no route" Kind.unavailable)), suc w);
}

round-reconnect :
    round unreachable none none none 3 60 3 2 running ≡ (ok (again 3), record running { world = 2 })
unfolding round attempt handled is_cancelled backfill next_page application_call remaining int
    all_digits is_digit value
round-reconnect = refl

round-again_example : 3 ≤ 3
unfolding is_decimal str_ℕ value all_digits is_digit text_length text_dec
round-again_example =
    round-again unreachable none none none 3 60 3 2 3 running (record running { world = 2 }) refl
      round-reconnect
