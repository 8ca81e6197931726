-- ===== src/Tasks/Wait/Loop.antt =====
-- `Task.wait`: the tests of its arguments, the loop over its rounds and the sleep between two of them.
pub mod Keeps
pub mod Reading
pub mod Clock
pub mod Rounds
pub mod Ends
pub mod Along
pub mod Watched
use deixic_python.Base.{
  ℕ, zero, suc, ◌+◌, ◌-◌, ◌*◌, ◌/◌, ◌^◌, min, String, Bool, true, false, not, Option, none, some,
  leb, ltb, if◌then◌else◌, Result, ok, err, pure, raise, gets, ◌>>=◌, ◌>>◌, ◌&&◌,
}
use deixic_python.Base.Int.{pos, leb_ℤ}
use deixic_python.Value.{Value}
use deixic_python.Errors.{DeixicError, validation_error}
use deixic_python.Tasks.Types.{
  Checkpoint, Submission, TaskEvent, Status, TaskResult, brief, Raised, deixic,
}
use deixic_python.Tasks.Checks.{pages, positive}
use deixic_python.Tasks.Platform.{Platform, Call, Session, Run, checked}
use deixic_python.Client.{billion, billionths}
use deixic_python.Tasks.Wait.{Round, finished, again, result, is_cancelled, round}

-- `time.sleep`, and the product of a span with `random.uniform(0.8, 1.2)`; spans in billionths of a
-- second, as the clock.
pub record Timer (World : Type 0) : Type 0 where
  pub sleep : ℕ → World → World
  pub jitter : ℕ → World → ℕ × World

-- `max_reconnect_attempts`, an integer that is no bool
unfoldable pub reconnect_attempts : Value → Result DeixicError ℕ
reconnect_attempts (Value.int (pos n)) =
    if leb n 100
    then ok n
    else err (validation_error "max_reconnect_attempts must be between 0 and 100")
reconnect_attempts _ = err (validation_error "max_reconnect_attempts must be between 0 and 100")

-- `min(poll_interval * 2**reconnects, 5)`
abbrev pub span : ℕ → ℕ → ℕ
span poll_interval reconnects = min (poll_interval * 2 ^ reconnects) (5 * billion)

abbrev pub is_accepted : Submission → Bool
is_accepted Submission.accepted = true
is_accepted submission = false

module _ (P : Platform) where
  -- `time.monotonic()`
  abbrev pub monotonic : Run P.World ℕ
  monotonic s = let (now, w) = P.monotonic s.world in (ok now, record s { world = w })

  abbrev pub jittered : Timer P.World → ℕ → Run P.World ℕ
  jittered timer length s =
      let (delay, w) = timer.jitter length s.world in (ok delay, record s { world = w })

  abbrev pub sleep : Timer P.World → ℕ → Run P.World (Unit {0})
  sleep timer length s = (ok tt, record s { world = timer.sleep length s.world })

  abbrev pub set_observing : Bool → Session P.World → Session P.World
  set_observing b s = record s { task = record s.task { observing = b } }

module _ (P : Platform) (timer : Timer P.World)
    (on_checkpoint : Option (Checkpoint → Call P.World (Unit {0})))
    (on_event : Option (TaskEvent → Call P.World (Unit {0})))
    (cancelled : Option (Call P.World Bool)) where
  module _ (max_pages deadline max_reconnects : ℕ) where
    -- `cancelled and cancelled()`
    abbrev pub stops : Run P.World Bool
    stops = is_cancelled P on_checkpoint on_event cancelled max_pages deadline max_reconnects

    -- A short sleep, unless the application cancels.
    unfoldable pub nap_on : ℕ → Run P.World (Option Bool) → Run P.World (Option Bool)
    nap_on until more = do
      stop ← stops
      elim stop [
        | true ↦ pure (some true)
        | false ↦ do later ← monotonic P; sleep P timer (min (billion / 10) (until - later)); more
      ]

    -- The short sleeps until a time, on fuel: true where the application cancels, false where the time
    -- has come, and none where the fuel does not last.
    unfoldable pub nap : ℕ → ℕ → Run P.World (Option Bool)
    nap zero until = pure none
    nap (suc fuel) until =
        let going = nap_on until (nap fuel until) in
        do now ← monotonic P; if leb until now then pure (some false) else going

    -- The pause behind a round.
    unfoldable pub rest : ℕ → ℕ → ℕ → Run P.World (Option Bool)
    rest fuel poll_interval reconnects = do
      delay ← jittered P timer (span poll_interval reconnects)
      now ← monotonic P
      nap fuel (min deadline (now + delay))

    -- What follows the pause: the result of a cancelled wait, or the next round.
    abbrev pub rested :
        Run P.World (Option TaskResult) → Option Bool → Run P.World (Option TaskResult)
    rested next none = pure none
    rested next (some true) =
        gets (λ s. some (brief Status.unfinished s.task.checkpoint.turn_id "cancelled"))
    rested next (some false) = next

    abbrev pub behind :
        ℕ → ℕ → (ℕ → Run P.World (Option TaskResult)) → Round → Run P.World (Option TaskResult)
    behind naps poll_interval next (finished r) = pure (some r)
    behind naps poll_interval next (again m) = do
      slept ← rest naps poll_interval m
      rested (next m) slept

    -- The loop over the rounds, on fuel for them and for the short sleeps.
    unfoldable pub loop : ℕ → ℕ → ℕ → ℕ → Run P.World (Option TaskResult)
    loop naps poll_interval zero reconnects = pure none
    loop naps poll_interval (suc fuel) reconnects = do
      outcome ←
          round P on_checkpoint on_event cancelled max_pages deadline max_reconnects reconnects
      behind naps poll_interval (loop naps poll_interval fuel) outcome

  -- A wait that has passed the tests: `finally` ends the observation behind a value and an exception.
  unfoldable pub observe : ℕ → ℕ → ℕ → ℕ → Run P.World (Option TaskResult)
  observe timeout poll_interval max_pages max_reconnects s =
      let (now, w) = P.monotonic s.world in
      let (r, t) =
        loop max_pages (now + timeout) max_reconnects (suc timeout) poll_interval (suc timeout) 0
          (set_observing P true (record s { world = w })) in
      (r, set_observing P false t)

  -- `self.result()`
  abbrev pub shown : Run P.World (Option TaskResult)
  shown = do r ← result P on_checkpoint on_event (Value.int (pos 10)); pure (some r)

  abbrev pub observe_if :
      Bool → Bool → Run P.World (Option TaskResult) → Run P.World (Option TaskResult)
  observe_if true accepted_yet run =
      raise (deixic (validation_error "This task already has an active observer"))
  observe_if false false run = shown
  observe_if false true run = run

  -- `Task.wait`
  unfoldable pub wait : Value → Value → Value → Value → Run P.World (Option TaskResult)
  wait timeout poll_interval max_pages max_reconnect_attempts = do
    checked (positive timeout "timeout")
    checked (positive poll_interval "poll_interval")
    bound ← checked (pages max_pages)
    reconnects ← checked (reconnect_attempts max_reconnect_attempts)
    task ← gets (λ s. s.task)
    observe_if task.observing (is_accepted task.checkpoint.submission)
        (observe (billionths timeout) (billionths poll_interval) bound reconnects)
