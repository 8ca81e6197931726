-- ===== src/Tasks/Wait.antt =====
-- One round of `Task.wait`, up to its sleep; `Task.result`; `TaskResult.parse`.
pub mod Steps
pub mod Observed
pub mod Loop
use deixic_python.Base.{
  ℕ, suc, String, Bool, true, false, not, ◌||◌, Option, none, some, List, [], ◌∷◌, leb,
  if◌then◌else◌, Result, ok, err, pure, raise, gets, ◌>>=◌, ◌>>◌,
}
use deixic_python.Value.{Value}
use deixic_python.Errors.{DeixicError, Kind, unavailable, transport, validation_error}
use deixic_python.Tasks.Types.{
  Checkpoint, TaskEvent, Status, TaskResult, brief, Raised, deixic, deadline_reached,
  callback_failed,
}
use deixic_python.Tasks.Checks.{pages}
use deixic_python.Tasks.Platform.{
  Platform, Call, Session, Run, call, checked, application_call, remaining,
}
use deixic_python.Tasks.Backfill.{backfill}
use deixic_python.Tasks.Result.{result_from}

-- What a round comes to: a result, or another round with the count of reconnects.
pub data Round : Type 0 where
  finished : TaskResult → Round
  again : ℕ → Round

-- `outcome.status not in ("unfinished", "responded")`
abbrev pub is_final : Status → Bool
is_final Status.unfinished = false
is_final Status.responded = false
is_final status = true

abbrev pub is_transient : Kind → Bool
is_transient Kind.transport = true
is_transient Kind.unavailable = true
is_transient _ = false

abbrev pub unfinished : String → String → Round
unfinished turn_id reason = finished (brief Status.unfinished turn_id reason)

abbrev pub unfinished_error : String → String → DeixicError → Round
unfinished_error turn_id reason e =
    finished (record (brief Status.unfinished turn_id reason) { error = some e })

-- Behind a whole observation: a final result, the bound on the pages, or another round.
abbrev pub observed_round : String → Bool → TaskResult → Round
observed_round turn_id caught_up outcome =
    if is_final outcome.status
    then finished outcome
    else if caught_up
    then again 0
    else unfinished turn_id "backfill_limit"

module _ (P : Platform) (on_checkpoint : Option (Checkpoint → Call P.World (Unit {0})))
    (on_event : Option (TaskEvent → Call P.World (Unit {0}))) where
  -- `Task.result`
  unfoldable pub result : Value → Run P.World TaskResult
  result max_pages = do n ← checked (pages max_pages); result_from P on_checkpoint on_event n none

  module _ (cancelled : Option (Call P.World Bool)) (max_pages deadline max_reconnects : ℕ) where
    -- `cancelled and cancelled()`
    unfoldable pub is_cancelled : Run P.World Bool
    is_cancelled s = elim cancelled [ none ↦ (ok false, s) | some f ↦ call f s ]

    -- The body of `try`.
    unfoldable pub attempt : Run P.World Round
    attempt = do
      left ← remaining P (some deadline)
      caught_up ← backfill P on_checkpoint on_event max_pages (some deadline)
      turn_id ← gets (λ s. s.task.checkpoint.turn_id)
      early ← application_call is_cancelled
      elim early [
        | true ↦ pure (unfinished turn_id "cancelled")
        | false ↦ do
          outcome ← result_from P on_checkpoint on_event max_pages (some deadline)
          late ← application_call is_cancelled
          elim late [
            | true ↦ pure (unfinished turn_id "cancelled")
            | false ↦ do
              left ← remaining P (some deadline)
              pure (observed_round turn_id caught_up outcome)
          ]
      ]

    -- `except DeixicError`, for an error that may pass, at a time.
    abbrev pub reconnect : ℕ → String → DeixicError → ℕ → Round
    reconnect reconnects turn_id e now =
        if leb deadline now
        then unfinished_error turn_id "deadline" e
        else if leb max_reconnects reconnects
        then unfinished_error turn_id "observation_error" e
        else again (suc reconnects)

    -- The `except` clauses, and `except _ApplicationCallbackError` of the whole loop.
    unfoldable pub handled : ℕ → Result Raised Round → Run P.World Round
    handled reconnects (ok r) s = (ok r, s)
    handled reconnects (err deadline_reached) s =
        (ok (unfinished s.task.checkpoint.turn_id "deadline"), s)
    handled reconnects (err (deixic e)) s =
        let (now, w) = P.monotonic s.world in
        if is_transient e.kind
        then (ok (reconnect reconnects s.task.checkpoint.turn_id e now), record s { world = w })
        else (err (deixic e), s)
    handled reconnects (err (callback_failed e)) s = (err e, s)
    handled reconnects (err e) s = (err e, s)

    -- One round of the loop.
    unfoldable pub round : ℕ → Run P.World Round
    round reconnects = do
      stop ← is_cancelled
      turn_id ← gets (λ s. s.task.checkpoint.turn_id)
      elim stop [
        | true ↦ pure (unfinished turn_id "cancelled")
        | false ↦ λ s. let (r, t) = attempt s in handled reconnects r t
      ]

-- `TaskResult.parse`
unfoldable pub parse : {World T : Type 0} → TaskResult → (String → Call World T) → Call World T
parse r parser w = elim r.status [
  | Status.completed ↦ elim r.body [
    | some body ↦ parser body w
    | none ↦
        (err (deixic (validation_error "Only a completed task has a final answer to parse")), w)
  ]
  | _ ↦ (err (deixic (validation_error "Only a completed task has a final answer to parse")), w)
]
