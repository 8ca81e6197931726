-- ===== src/Tests/Waiting.antt =====
-- Runs of `Task.wait`.
use deixic_python.Base.{
  List, [], ◌∷◌, ℕ, ◌+◌, ◌≤◌, false, ◌≡◌, refl, none, some, Option, Result, ok, any, arith,
}
use deixic_python.Base.Text.{text_dec, text_length}
use deixic_python.Base.Int.{pos, max_ℤ}
use deixic_python.Base.Decimal.{all_digits, is_digit, value, str_ℕ, str, int}
use deixic_python.Value.{Value, finite}
use deixic_python.Errors.{plain_error, Kind}
use deixic_python.Tasks.Types.{TaskResult, Status, brief, Raised}
use deixic_python.Tasks.Checks.{is_decimal, is_positive, positive, pages}
use deixic_python.Tasks.Platform.{Session, save, application_call, remaining}
use deixic_python.Tasks.Pages.{
  page_refusal, watermark, event_refusal, conflicts, sort_events, insert_event,
}
use deixic_python.Tasks.Backfill.{backfill, next_page, consume, deliver, notify, is_skipped}
use deixic_python.Tasks.Backfill.Progress.{IsPast}
use deixic_python.Tasks.Result.{
  result_from, submission_result, observed, scan_thread, thread_page, find_turn, find_message,
  is_enough, scanned_result, found_result, status_result, completed_result, read_receipts, distinct,
  without,
}
use deixic_python.Tasks.Result.Completed.{IsComplete}
use deixic_python.Client.{billionths}
use deixic_python.Tasks.Wait.{round, attempt, handled, is_cancelled}
use deixic_python.Tasks.Wait.Loop.{
  Timer, reconnect_attempts, nap_on, nap, rest, loop, observe, wait,
}
use deixic_python.Tasks.Wait.Loop.Clock.{Ticking}
use deixic_python.Tasks.Wait.Loop.Ends.{wait-ends}
use deixic_python.Tasks.Wait.Loop.Watched.{wait-IsPast, wait-IsComplete}
use deixic_python.Tasks.Life.{Follows}
use deixic_python.Tasks.Life.Calls.{Use, submits, waits, asks, after_all, after_all-Follows}
use deixic_python.Tests.Handles.{accepted_checkpoint}
use deixic_python.Tests.Tasks.{start, server, unreachable, running, done_behind}

-- A sleep takes as long as it should, and nothing is random.
abbrev timer : Timer ℕ
timer = record { sleep = λ d w. w + d; jitter = λ d w. (d, w) }

abbrev ticks : ℕ → Value
ticks n = Value.float (finite (pos n))

server-Ticking : Ticking server timer none none none (λ n w. n ≤ w)
server-Ticking = record {
  steady = λ n. record {
    by_thread = λ q w h. omega arith;
    by_events = λ q w h. omega arith;
    by_receipt = λ q w h. omega arith;
    by_clock = λ w h. h;
    by_checkpoint = tt;
    by_event = tt;
    by_cancelled = tt;
  };
  begins = λ w. omega arith;
  reads = λ n w h. (h, omega arith);
  sleeps = λ n d w h. omega arith;
  jitters = λ n d w h. h;
  delays = λ d w h. h;
}

wait-ends_example :
    (wait server timer none none none
        (ticks 60)
        (ticks 5)
        (Value.int (pos 3))
        (Value.int (pos 3))
        running).0
      ≡ ok none
    → ⊥
wait-ends_example =
    wait-ends server timer none none none (λ n w. n ≤ w) server-Ticking (ticks 60) (ticks 5)
      (Value.int (pos 3)) (Value.int (pos 3)) running

wait-IsPast_example :
    let t =
      (wait server timer none none none
        (ticks 60)
        (ticks 5)
        (Value.int (pos 3))
        (Value.int (pos 3))
        running).1 in
    IsPast accepted_checkpoint 120 t.task.checkpoint × (t.task.observing ≡ false)
unfolding is_decimal str_ℕ value all_digits is_digit text_length text_dec
wait-IsPast_example =
    wait-IsPast server timer none none none (ticks 60) (ticks 5) (Value.int (pos 3))
      (Value.int (pos 3)) running refl

abbrev waited : Result Raised (Option TaskResult) × Session ℕ
waited =
    wait server timer none none none (ticks 60) (ticks 5) (Value.int (pos 3)) (Value.int (pos 3))
      running

wait-done : waited ≡ (ok (some done_behind), waited.1)
unfolding wait observe loop positive is_positive pages reconnect_attempts billionths round attempt
    handled is_cancelled result_from submission_result observed scan_thread thread_page find_turn
    find_message is_enough scanned_result found_result status_result completed_result read_receipts
    distinct without backfill next_page consume deliver notify is_skipped page_refusal watermark
    event_refusal conflicts max_ℤ sort_events insert_event save application_call remaining int str
    str_ℕ all_digits is_digit value text_dec any
wait-done = refl

wait-IsComplete_example : IsComplete accepted_checkpoint done_behind
unfolding is_decimal str_ℕ value all_digits is_digit text_length text_dec
wait-IsComplete_example =
    wait-IsComplete server timer none none none (ticks 60) (ticks 5) (Value.int (pos 3))
      (Value.int (pos 3)) running waited.1 done_behind refl wait-done refl

-- With one reconnect allowed, the second failure ends the wait, behind a sleep of ten ticks.
unreachable-ends :
    (wait unreachable timer none none none
      (ticks 60)
      (ticks 5)
      (Value.int (pos 3))
      (Value.int (pos 1))
      running).0
    ≡ ok (
        some (record (brief Status.unfinished "t1" "observation_error") {
          error = some (plain_error "no route" Kind.unavailable);
        }))
unfolding wait observe loop rest nap nap_on positive is_positive pages reconnect_attempts billionths
    round attempt handled is_cancelled backfill next_page application_call remaining int all_digits
    is_digit value
unreachable-ends = refl

-- A handle that is submitted, waited for, submitted again and asked for its result.
abbrev uses : List Use
uses =
    submits
    ∷ waits (ticks 60) (ticks 5) (Value.int (pos 3)) (Value.int (pos 3))
    ∷ submits
    ∷ asks (Value.int (pos 3))
    ∷ []

after_all-Follows_example :
    Follows start.task.checkpoint (after_all server timer none none none uses start).task.checkpoint
unfolding str str_ℕ
after_all-Follows_example = after_all-Follows server timer none none none uses start (0, refl)
