-- ===== src/Tasks/Wait/Observed.antt =====
-- What one round of `Task.wait` may do and say.
use deixic_python.Base.{ℕ, ◌≤◌, Bool, true, ◌≡◌, Option, ok, arith}
use deixic_python.Base.Decimal.{value}
use deixic_python.Base.Post.{Post, Post-ok}
use deixic_python.Tasks.Types.{Checkpoint, TaskEvent}
use deixic_python.Tasks.Checks.{is_decimal}
use deixic_python.Tasks.Platform.{Platform, Call, Session}
use deixic_python.Tasks.Backfill.Progress.{IsPast, at-canonical}
use deixic_python.Tasks.Wait.{again, round}
use deixic_python.Tasks.Wait.Steps.{Bounded, round-Post}

module _ (P : Platform) (on_checkpoint : Option (Checkpoint → Call P.World (Unit {0})))
    (on_event : Option (TaskEvent → Call P.World (Unit {0})))
    (cancelled : Option (Call P.World Bool)) (max_pages deadline max_reconnects : ℕ) where
  from_start :
      (reconnects : ℕ) (s : Session P.World)
      → is_decimal s.task.checkpoint.cursor ≡ true
      → let c = s.task.checkpoint in
        let low = value 0 c.cursor in
        Post
          (λ a t. IsPast c low t.task.checkpoint × Bounded max_reconnects c a)
          (λ t. IsPast c low t.task.checkpoint)
          (round P on_checkpoint on_event cancelled max_pages deadline max_reconnects reconnects s)
  from_start reconnects s h =
      let c = s.task.checkpoint in
      round-Post P on_checkpoint on_event cancelled max_pages deadline max_reconnects c
        (value 0 c.cursor) reconnects s
        (value 0 c.cursor, omega arith, at-canonical P on_checkpoint on_event c h)

  -- A round of `wait` from a canonical cursor asks for another one only with a count of
  -- reconnects within the bound that the application gave.
  pub round-again :
      (reconnects m : ℕ) (s t : Session P.World)
      → is_decimal s.task.checkpoint.cursor ≡ true
      → round P on_checkpoint on_event cancelled max_pages deadline max_reconnects reconnects s
        ≡ (ok (again m), t)
      → m ≤ max_reconnects
  round-again reconnects m s t h e = (Post-ok _ e (from_start reconnects s h)).1
