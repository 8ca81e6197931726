-- ===== src/Tasks/Wait/Loop/Rounds.antt =====
-- When a round of `Task.wait` is followed by another.
use deixic_python.Base.{
  ℕ, suc, ◌≤◌, String, Bool, Option, some, inl, inr, Bool-cases, leb, arith, Result, ok, err,
}
use deixic_python.Base.Post.{Post, returned, raised, Post-bind, Post-weaken}
use deixic_python.Errors.{DeixicError}
use deixic_python.Tasks.Types.{
  Checkpoint, TaskEvent, TaskResult, Raised, deixic, deadline_reached, callback_failed, value_error,
  foreign,
}
use deixic_python.Tasks.Platform.{Platform, Call, Session, application_call, remaining}
use deixic_python.Tasks.Backfill.{backfill}
use deixic_python.Tasks.Result.{result_from}
use deixic_python.Tasks.Wait.{
  Round, finished, again, is_final, is_transient, observed_round, is_cancelled, attempt, reconnect,
  handled, round,
}
use deixic_python.Tasks.Wait.Loop.{Timer, stops}
use deixic_python.Tasks.Wait.Loop.Keeps.{
  Holds, is_cancelled-Holds, application_call-Holds, backfill-Holds, remaining-Holds,
}
use deixic_python.Tasks.Wait.Loop.Reading.{result_from-Holds}
use deixic_python.Tasks.Wait.Loop.Clock.{Ticking}

module _ (P : Platform) (timer : Timer P.World)
    (on_checkpoint : Option (Checkpoint → Call P.World (Unit {0})))
    (on_event : Option (TaskEvent → Call P.World (Unit {0})))
    (cancelled : Option (Call P.World Bool)) (Reached : ℕ → P.World → Type 0)
    (ticking : Ticking P timer on_checkpoint on_event cancelled Reached) where
  module _ (max_pages deadline max_reconnects : ℕ) where
    -- A round that is followed by another ends before the deadline.
    abbrev pub Timely : ℕ → Round → Session P.World → Type 0
    Timely n (finished r) t = Unit
    Timely n (again m) t = (k : ℕ) × (n ≤ k) × (suc k ≤ deadline) × Reached k t.world

    abbrev Late : ℕ → Session P.World → Type 0
    Late n t = Reached n t.world

    observed-Timely :
        (n k : ℕ) (turn_id : String) (caught_up : Bool) (r : TaskResult) (t : Session P.World)
        → n ≤ k
        → suc k ≤ deadline
        → Reached k t.world
        → Timely n (observed_round turn_id caught_up r) t
    observed-Timely n k turn_id caught_up r t a b c = elim (Bool-cases (is_final r.status)) [
      | inl final ↦ rw final tt
      | inr more ↦ elim (Bool-cases caught_up) [
        | inl all ↦ rw (more, all) (k, a, b, c)
        | inr part ↦ rw (more, part) tt
      ]
    ]

    stops-Holds :
        (n : ℕ)
        → Holds
            (Reached n)
            (stops P timer on_checkpoint on_event cancelled max_pages deadline max_reconnects)
    stops-Holds n =
        is_cancelled-Holds P on_checkpoint on_event cancelled (Reached n) (ticking.steady n)
          max_pages deadline max_reconnects

    -- A test of the deadline that passes.
    remaining-Post :
        (n : ℕ) (s : Session P.World)
        → Reached n s.world
        → Post
            (λ _ t. (k : ℕ) × (n ≤ k) × (suc k ≤ deadline) × Reached k t.world)
            (Late n)
            (remaining P (some deadline) s)
    unfolding remaining
    remaining-Post n s r =
        let (now, w) = P.monotonic s.world in
        let (later, r1) = ticking.reads n s.world r in
        elim (Bool-cases (leb deadline now)) [
          | inl over ↦
              rw over (raised _ (record s { world = w }) ((ticking.steady n).by_clock s.world r))
          | inr left ↦ rw left (returned _ (record s { world = w }) (now, later, ground arith, r1))
        ]

    attempt-Post :
        (n : ℕ) (s : Session P.World)
        → Reached n s.world
        → Post
            (Timely n)
            (Late n)
            (attempt P on_checkpoint on_event cancelled max_pages deadline max_reconnects s)
    unfolding attempt
    attempt-Post n s r =
        let keeps = ticking.steady n in
        Post-bind (remaining P (some deadline)) _ s
          (Post-weaken {R = λ _ t. Reached n t.world} {K = Late n} _
            (remaining-Holds P on_checkpoint on_event cancelled (Reached n) keeps (some deadline) s
              r)
            (λ _ _ x. x) (λ _ x. x))
          λ _ t _ r1.
            Post-bind (backfill P on_checkpoint on_event max_pages (some deadline)) _ t
              (backfill-Holds P on_checkpoint on_event cancelled (Reached n) keeps max_pages
                (some deadline) t r1)
              λ caught_up u _ r2.
                Post-bind
                  (application_call (
                    stops P timer on_checkpoint on_event cancelled max_pages deadline
                      max_reconnects))
                  _ u (application_call-Holds (Reached n) _ (stops-Holds n) u r2)
                  λ early v _ r3. elim (Bool-cases early) [
                    | inl stop ↦ rw stop (returned _ v tt)
                    | inr go ↦ rw go (
                        Post-bind (result_from P on_checkpoint on_event max_pages (some deadline)) _
                          v
                          (result_from-Holds P on_checkpoint on_event cancelled (Reached n) keeps
                            max_pages (some deadline) v r3)
                          λ outcome w _ r4.
                            Post-bind
                              (application_call (
                                stops P timer on_checkpoint on_event cancelled max_pages deadline
                                  max_reconnects))
                              _ w (application_call-Holds (Reached n) _ (stops-Holds n) w r4)
                              λ late x _ r5. elim (Bool-cases late) [
                                | inl stop ↦ rw stop (returned _ x tt)
                                | inr go ↦ rw go (
                                    Post-bind (remaining P (some deadline)) _ x
                                      (remaining-Post n x r5)
                                      λ _ y _ (k, a, b, c). returned _ y (
                                        observed-Timely n k u.task.checkpoint.turn_id caught_up
                                          outcome y a b c))
                              ])
                  ]

    reconnect-Timely :
        (n reconnects : ℕ) (turn_id : String) (e : DeixicError) (now : ℕ) (t : Session P.World)
        → n ≤ now
        → Reached now t.world
        → Timely n
            (reconnect P on_checkpoint on_event cancelled max_pages deadline max_reconnects
              reconnects turn_id e now)
            t
    reconnect-Timely n reconnects turn_id e now t a r = elim (Bool-cases (leb deadline now)) [
      | inl over ↦ rw over tt
      | inr early ↦ elim (Bool-cases (leb max_reconnects reconnects)) [
        | inl spent ↦ rw (early, spent) tt
        | inr left ↦ rw (early, left) (now, a, ground arith, r)
      ]
    ]

    handled-Post :
        (n reconnects : ℕ) (r : Result Raised Round × Session P.World)
        → Post (Timely n) (Late n) r
        → Post
            (Timely n)
            (λ _. Unit)
            (handled P on_checkpoint on_event cancelled max_pages deadline max_reconnects reconnects
              r.0 r.1)
    unfolding handled
    handled-Post n reconnects (ok a, s) p = returned a s p.left
    handled-Post n reconnects (err deadline_reached, s) p = returned _ s tt
    handled-Post n reconnects (err (deixic e), s) p =
        let (later, r) = ticking.reads n s.world p.left in
        elim (Bool-cases (is_transient e.kind)) [
          | inl transient ↦ rw transient (
              returned _ (record s { world = (P.monotonic s.world).1 })
                (reconnect-Timely n reconnects s.task.checkpoint.turn_id e (P.monotonic s.world).0
                  (record s { world = (P.monotonic s.world).1 }) later r))
          | inr lasting ↦ rw lasting (raised _ s tt)
        ]
    handled-Post n reconnects (err (callback_failed e), s) p = raised _ s tt
    handled-Post n reconnects (err value_error, s) p = raised _ s tt
    handled-Post n reconnects (err (foreign e), s) p = raised _ s tt

    pub round-Post :
        (n reconnects : ℕ) (s : Session P.World)
        → Reached n s.world
        → Post
            (Timely n)
            (λ _. Unit)
            (round P on_checkpoint on_event cancelled max_pages deadline max_reconnects reconnects
              s)
    unfolding round
    round-Post n reconnects s r =
        Post-bind
          (is_cancelled P on_checkpoint on_event cancelled max_pages deadline max_reconnects) _ s
          (Post-weaken {R = λ _ t. Reached n t.world} {K = λ _. Unit} _ (stops-Holds n s r)
            (λ _ _ x. x) (λ _ _. tt))
          λ stop t _ r1. elim (Bool-cases stop) [
            | inl stopped ↦ rw stopped (returned _ t tt)
            | inr going ↦ rw going (
                handled-Post n reconnects
                  (attempt P on_checkpoint on_event cancelled max_pages deadline max_reconnects t)
                  (attempt-Post n t r1))
          ]
