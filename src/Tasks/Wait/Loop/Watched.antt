-- ===== src/Tasks/Wait/Loop/Watched.antt =====
-- What `Task.wait` leaves of its handle, and what it returns.
use deixic_python.Base.{
  ℕ, suc, ◌+◌, Bool, true, false, ◌≡◌, refl, sym, ap, ◌∙◌, subst, Option, none, some, arith, Result,
  ok, err,
}
use deixic_python.Base.Int.{pos}
use deixic_python.Base.Decimal.{value}
use deixic_python.Base.Post.{Post, returned, raised, Post-bind, Post-weaken, Post-ok, Post-state}
use deixic_python.Value.{Value}
use deixic_python.Tasks.Types.{Checkpoint, Status, TaskEvent, TaskResult, Raised}
use deixic_python.Tasks.Checks.{pages, positive, is_decimal}
use deixic_python.Tasks.Platform.{Platform, Call, Session, Run, checked}
use deixic_python.Tasks.Platform.Steps.{checks}
use deixic_python.Tasks.Backfill.Progress.{IsPast, at-canonical}
use deixic_python.Tasks.Result.Completed.{IsComplete, result_from-Post}
use deixic_python.Client.{billionths}
use deixic_python.Tasks.Wait.{result}
use deixic_python.Tasks.Wait.Steps.{Shows, advance-IsComplete}
use deixic_python.Tasks.Wait.Loop.{
  Timer, reconnect_attempts, is_accepted, set_observing, loop, observe, shown, observe_if, wait,
}
use deixic_python.Tasks.Wait.Loop.Along.{ShowsSome, loop-Watched}

module _ (P : Platform) (timer : Timer P.World)
    (on_checkpoint : Option (Checkpoint → Call P.World (Unit {0})))
    (on_event : Option (TaskEvent → Call P.World (Unit {0})))
    (cancelled : Option (Call P.World Bool)) where
  module _ (c : Checkpoint) (low : ℕ) (b : Bool) where
    -- The handle is as far as it was, and is observed where it was.
    abbrev Free : Session P.World → Type 0
    Free t = IsPast c low t.task.checkpoint × (t.task.observing ≡ b)

    abbrev Shown : Result Raised (Option TaskResult) × Session P.World → Type 0
    Shown r = Post (λ o t. Free t × ShowsSome c o) Free r

    freed :
        (r : Result Raised (Option TaskResult) × Session P.World)
        → false ≡ b
        → Post
            (λ o t. IsPast c low t.task.checkpoint × ShowsSome c o)
            (λ t. IsPast c low t.task.checkpoint)
            r
        → Shown (r.0, set_observing P false r.1)
    freed (ok o, t) e p = returned o _ ((p.left.0, e), p.left.1)
    freed (err x, t) e p = raised x _ (p.left, e)

    observe-Shown :
        (timeout poll_interval max_pages max_reconnects : ℕ) (s : Session P.World)
        → Free s
        → false ≡ b
        → Shown (
            observe P timer on_checkpoint on_event cancelled timeout poll_interval max_pages
              max_reconnects s)
    unfolding observe
    observe-Shown timeout poll_interval max_pages max_reconnects s h e =
        let (now, w) = P.monotonic s.world in
        let started = set_observing P true (record s { world = w }) in
        freed
          (loop P timer on_checkpoint on_event cancelled max_pages (now + timeout) max_reconnects
            (suc timeout) poll_interval (suc timeout) 0 started)
          e
          (loop-Watched P timer on_checkpoint on_event cancelled max_pages (now + timeout)
            max_reconnects c low (suc timeout) poll_interval (suc timeout) 0 started h.0)

    result-Shown :
        (s : Session P.World) → Free s → Shown (shown P timer on_checkpoint on_event cancelled s)
    unfolding result
    result-Shown s ((n, l, e), o) =
        Post-bind (result P on_checkpoint on_event (Value.int (pos 10))) _ s
          (Post-bind (checked (pages (Value.int (pos 10)))) _ s
            (checks {Q = λ _ t. t ≡ s} (pages (Value.int (pos 10))) s (λ _ _. refl) ((n, l, e), o))
            λ bound t _ same. rw same (
              Post-weaken {R = λ r u. Free u × Shows c r} {K = Free} _
                (result_from-Post P on_checkpoint on_event bound none s)
                (λ r u (kept, found). (
                  ((n, l, ap (λ k. k.checkpoint) kept ∙ e), ap (λ k. k.observing) kept ∙ o),
                  λ z. advance-IsComplete c n r (subst (λ d. IsComplete d r) e (found z).0),
                ))
                (λ u kept.
                  ((n, l, ap (λ k. k.checkpoint) kept ∙ e), ap (λ k. k.observing) kept ∙ o))))
          λ r t _ x. returned (some r) t x

    observe_if-Shown :
        (observing accepted_yet : Bool) (run : Run P.World (Option TaskResult))
        (s : Session P.World)
        → Free s
        → (observing ≡ false → Shown (run s))
        → Shown (observe_if P timer on_checkpoint on_event cancelled observing accepted_yet run s)
    observe_if-Shown true accepted_yet run s h k = raised _ s h
    observe_if-Shown false true run s h k = k refl
    observe_if-Shown false false run s h k = result-Shown s h

    pub wait-Shown :
        (timeout poll_interval max_pages max_reconnect_attempts : Value) (s : Session P.World)
        → Free s
        → Shown (
            wait P timer on_checkpoint on_event cancelled timeout poll_interval max_pages
              max_reconnect_attempts s)
    unfolding wait
    wait-Shown timeout poll_interval max_pages max_reconnect_attempts s h =
        Post-bind (checked (positive timeout "timeout")) _ s
          (checks {Q = λ _. Free} (positive timeout "timeout") s (λ _ _. h) h)
          λ _ t _ h1.
            Post-bind (checked (positive poll_interval "poll_interval")) _ t
              (checks {Q = λ _. Free} (positive poll_interval "poll_interval") t (λ _ _. h1) h1)
              λ _ u _ h2.
                Post-bind (checked (pages max_pages)) _ u
                  (checks {Q = λ _. Free} (pages max_pages) u (λ _ _. h2) h2)
                  λ bound v _ h3.
                    Post-bind (checked (reconnect_attempts max_reconnect_attempts)) _ v
                      (checks {Q = λ _. Free} (reconnect_attempts max_reconnect_attempts) v
                        (λ _ _. h3) h3)
                      λ reconnects w _ h4.
                        observe_if-Shown w.task.observing (is_accepted w.task.checkpoint.submission)
                          _ w h4
                          (λ e.
                            observe-Shown (billionths timeout) (billionths poll_interval) bound
                              reconnects w h4 (sym e ∙ h4.1))

  from_cursor :
      (timeout poll_interval max_pages max_reconnect_attempts : Value) (s : Session P.World)
      → is_decimal s.task.checkpoint.cursor ≡ true
      → Shown s.task.checkpoint (value 0 s.task.checkpoint.cursor) s.task.observing (
          wait P timer on_checkpoint on_event cancelled timeout poll_interval max_pages
            max_reconnect_attempts s)
  from_cursor timeout poll_interval max_pages max_reconnect_attempts s h =
      wait-Shown s.task.checkpoint (value 0 s.task.checkpoint.cursor) s.task.observing timeout
        poll_interval max_pages max_reconnect_attempts s
        (
          (
            value 0 s.task.checkpoint.cursor,
            omega arith,
            at-canonical P on_checkpoint on_event s.task.checkpoint h,
          ),
          refl,
        )

  -- From a canonical cursor, `wait` leaves its handle observed as it was, so that it can be waited for
  -- again, and it never moves the cursor back and changes nothing else of the checkpoint. This holds
  -- on every path: where it returns, is cancelled, meets its deadline, is refused or raises.
  pub wait-IsPast :
      (timeout poll_interval max_pages max_reconnect_attempts : Value) (s : Session P.World)
      → is_decimal s.task.checkpoint.cursor ≡ true
      → let t =
          (wait P timer on_checkpoint on_event cancelled timeout poll_interval max_pages
            max_reconnect_attempts s).1 in
        IsPast s.task.checkpoint (value 0 s.task.checkpoint.cursor) t.task.checkpoint
        × (t.task.observing ≡ s.task.observing)
  wait-IsPast timeout poll_interval max_pages max_reconnect_attempts s h =
      Post-state
        (λ t.
          IsPast s.task.checkpoint (value 0 s.task.checkpoint.cursor) t.task.checkpoint
          × (t.task.observing ≡ s.task.observing))
        (wait P timer on_checkpoint on_event cancelled timeout poll_interval max_pages
          max_reconnect_attempts s)
        (from_cursor timeout poll_interval max_pages max_reconnect_attempts s h) (λ _ _ x. x.0)
        (λ _ x. x)

  -- A completed result that `wait` returns from a canonical cursor is made of the turn that the
  -- checkpoint has accepted, as a completed result of `_result` is, however many rounds it took.
  pub wait-IsComplete :
      (timeout poll_interval max_pages max_reconnect_attempts : Value) (s t : Session P.World)
      (r : TaskResult)
      → is_decimal s.task.checkpoint.cursor ≡ true
      → wait P timer on_checkpoint on_event cancelled timeout poll_interval max_pages
          max_reconnect_attempts s
        ≡ (ok (some r), t)
      → r.status ≡ Status.completed
      → IsComplete s.task.checkpoint r
  wait-IsComplete timeout poll_interval max_pages max_reconnect_attempts s t r h e =
      (Post-ok
        (wait P timer on_checkpoint on_event cancelled timeout poll_interval max_pages
          max_reconnect_attempts s)
        e (from_cursor timeout poll_interval max_pages max_reconnect_attempts s h)).1
