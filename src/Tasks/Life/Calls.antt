-- ===== src/Tasks/Life/Calls.antt =====
-- Calls of `submit`, `replay`, `wait` and `result` of one handle, one after the other.
use deixic_python.Base.{
  ℕ, Bool, true, false, refl, sym, subst, inl, inr, Option, none, List, [], ◌∷◌, Bool-cases, arith,
  Result, ok, err, ◌>>=◌,
}
use deixic_python.Base.Post.{Post-state}
use deixic_python.Value.{Value}
use deixic_python.Errors.{DeixicError}
use deixic_python.Tasks.Types.{Checkpoint, TaskEvent}
use deixic_python.Tasks.Checks.{pages}
use deixic_python.Tasks.Platform.{Platform, Call, TaskState, Session, checked}
use deixic_python.Tasks.Submit.{submit_from, submit, replay, same_submission}
use deixic_python.Tasks.Submit.Outcome.{is_refused, refused-eq, submit_from-Post}
use deixic_python.Tasks.Backfill.Progress.{IsPast}
use deixic_python.Tasks.Result.{result_from}
use deixic_python.Tasks.Result.Completed.{result_from-task}
use deixic_python.Tasks.Wait.{result}
use deixic_python.Tasks.Wait.Loop.{Timer, wait}
use deixic_python.Tasks.Wait.Loop.Watched.{wait-Shown}
use deixic_python.Tasks.Life.{
  Follows, HasCursor, Follows-refl, Follows-trans, stays, required_of, revised-Follows,
  attempted-Follows, allowed-same,
}

-- A call of a method of the handle, with its arguments.
pub data Use : Type 0 where
  submits : Use
  replays : Use
  waits : Value → Value → Value → Value → Use
  asks : Value → Use

module _ (P : Platform) (timer : Timer P.World)
    (on_checkpoint : Option (Checkpoint → Call P.World (Unit {0})))
    (on_event : Option (TaskEvent → Call P.World (Unit {0})))
    (cancelled : Option (Call P.World Bool)) where
  -- What a call leaves, whether it returns or raises.
  abbrev pub after : Use → Session P.World → Session P.World
  after submits s = (submit P on_checkpoint s).1
  after replays s = (replay P on_checkpoint s).1
  after (waits timeout poll_interval max_pages attempts) s =
      (wait P timer on_checkpoint on_event cancelled timeout poll_interval max_pages attempts s).1
  after (asks max_pages) s = (result P on_checkpoint on_event max_pages s).1

  abbrev pub after_all : List Use → Session P.World → Session P.World
  after_all [] s = s
  after_all (u ∷ us) s = after_all us (after u s)

  abbrev Moves : Session P.World → Session P.World → Type 0
  Moves s t = Follows s.task.checkpoint t.task.checkpoint

  submit_from-Follows :
      (again : Bool) (s : Session P.World)
      → HasCursor s.task.checkpoint
      → Moves s (submit_from P on_checkpoint (required_of again) s).1
  submit_from-Follows again s h =
      elim (Bool-cases (is_refused P on_checkpoint (required_of again) s)) [
        | inl refused ↦
            rw (refused-eq P on_checkpoint (required_of again) s refused)
              (Follows-refl s.task.checkpoint h)
        | inr allowed ↦
            let same =
              allowed-same s.task.submitting
                (same_submission s.task.checkpoint.submission (required_of again)) allowed in
            Post-state (λ t. Moves s t) (submit_from P on_checkpoint (required_of again) s)
              (submit_from-Post P on_checkpoint (required_of again) s allowed)
              (λ _ t x.
                attempted-Follows P on_checkpoint again s.task.checkpoint t.task.checkpoint h same
                  (inr x.1))
              (λ t x.
                attempted-Follows P on_checkpoint again s.task.checkpoint t.task.checkpoint h same
                  x.1)
      ]

  advanced-Follows : (c d : Checkpoint) → IsPast c 0 d → Follows c d
  advanced-Follows c d (n, l, e) =
      rw e (revised-Follows c c.submission c.turn_id c.sequence n stays)

  wait-Follows :
      (timeout poll_interval max_pages attempts : Value) (s : Session P.World)
      → HasCursor s.task.checkpoint
      → Moves s
          (wait P timer on_checkpoint on_event cancelled timeout poll_interval max_pages attempts
            s).1
  wait-Follows timeout poll_interval max_pages attempts s (n, e) =
      Post-state (λ t. Moves s t)
        (wait P timer on_checkpoint on_event cancelled timeout poll_interval max_pages attempts s)
        (wait-Shown P timer on_checkpoint on_event cancelled s.task.checkpoint 0 s.task.observing
          timeout poll_interval max_pages attempts s ((n, omega arith, e), refl))
        (λ _ t x. advanced-Follows s.task.checkpoint t.task.checkpoint x.0.0)
        (λ t x. advanced-Follows s.task.checkpoint t.task.checkpoint x.0)

  result-Follows :
      (max_pages : Value) (s : Session P.World)
      → HasCursor s.task.checkpoint
      → Moves s (result P on_checkpoint on_event max_pages s).1
  unfolding result
  result-Follows max_pages s h = asked (pages max_pages)
    where
      asked :
          (r : Result DeixicError ℕ)
          → Moves s ((checked r >>= λ n. result_from P on_checkpoint on_event n none) s).1
      asked (err e) = Follows-refl s.task.checkpoint h
      asked (ok n) =
          subst (λ (k : TaskState). Follows s.task.checkpoint k.checkpoint)
            (sym (result_from-task P on_checkpoint on_event n none s))
            (Follows-refl s.task.checkpoint h)

  after-Follows :
      (u : Use) (s : Session P.World) → HasCursor s.task.checkpoint → Moves s (after u s)
  unfolding submit replay
  after-Follows submits s h = submit_from-Follows false s h
  after-Follows replays s h = submit_from-Follows true s h
  after-Follows (waits timeout poll_interval max_pages attempts) s h =
      wait-Follows timeout poll_interval max_pages attempts s h
  after-Follows (asks max_pages) s h = result-Follows max_pages s h

  -- Any calls of `submit`, `replay`, `wait` and `result`, in any order and with any arguments, and
  -- whatever the server and the application's callbacks do, take a handle through the stages of a
  -- submission only forwards: from unsent to unanswered, and from either to a running turn, which
  -- then keeps its turn and its sequence for good. What the checkpoint sends stays as it is, and its
  -- cursor stays the text of a number, which it is to be at first.
  pub after_all-Follows :
      (us : List Use) (s : Session P.World)
      → HasCursor s.task.checkpoint
      → Follows s.task.checkpoint (after_all us s).task.checkpoint
  after_all-Follows [] s h = Follows-refl s.task.checkpoint h
  after_all-Follows (u ∷ us) s h =
      let first = after-Follows u s h in
      Follows-trans s.task.checkpoint (after u s).task.checkpoint
        (after_all us (after u s)).task.checkpoint first
        (after_all-Follows us (after u s) (first.at, first.at_cursor))
