-- ===== src/Tasks/Wait/Steps.antt =====
-- What the parts of a round of `Task.wait` leave behind.
use deixic_python.Base.{
  ℕ, ◌≤◌, String, Bool, false, ◌≡◌, ap, ◌∙◌, subst, inl, inr, Option, none, some, leb, Result, ok,
  err, Bool-cases, arith,
}
use deixic_python.Base.Int.{pos}
use deixic_python.Base.Post.{Post, returned, raised, Post-bind, Post-weaken}
use deixic_python.Errors.{DeixicError}
use deixic_python.Tasks.Types.{
  Checkpoint, TaskEvent, Status, TaskResult, Raised, deixic, deadline_reached, callback_failed,
  value_error, foreign,
}
use deixic_python.Tasks.Platform.{Platform, Call, Session, application_call, remaining}
use deixic_python.Tasks.Platform.Steps.{called, remains, wraps}
use deixic_python.Tasks.Backfill.{advance, backfill}
use deixic_python.Tasks.Backfill.Progress.{IsPast, backfill-Past}
use deixic_python.Tasks.Result.{result_from}
use deixic_python.Tasks.Result.Completed.{IsComplete, result_from-Post}
use deixic_python.Tasks.Wait.{
  Round, finished, again, is_final, is_transient, observed_round, is_cancelled, attempt, reconnect,
  handled, round,
}

-- A result that is completed is made of the checkpoint's turn.
abbrev pub Shows : Checkpoint → TaskResult → Type 0
Shows c r = r.status ≡ Status.completed → IsComplete c r

-- Another round starts with a count within the bound.
abbrev pub Bounded : ℕ → Checkpoint → Round → Type 0
Bounded bound c (finished r) = Shows c r
Bounded bound c (again m) = m ≤ bound

pub advance-IsComplete :
    (c : Checkpoint) (n : ℕ) (r : TaskResult) → IsComplete (advance (pos n) c) r → IsComplete c r
advance-IsComplete c n r x = record {
  turn_found = x.turn_found;
  message_found = x.message_found;
  turn_given = x.turn_given;
  message_given = x.message_given;
  body_given = x.body_given;
  turn_accepted = x.turn_accepted;
  sequence_accepted = x.sequence_accepted;
  turn_completed = x.turn_completed;
  message_linked = x.message_linked;
  message_role = x.message_role;
  receipts_given = x.receipts_given;
}

observed_round-Bounded :
    (bound : ℕ) (c : Checkpoint) (turn_id : String) (caught_up : Bool) (r : TaskResult)
    → Shows c r
    → Bounded bound c (observed_round turn_id caught_up r)
observed_round-Bounded bound c turn_id caught_up r h = elim (Bool-cases (is_final r.status)) [
  | inl final ↦ rw final h
  | inr more ↦ elim (Bool-cases caught_up) [
    | inl all ↦ rw (more, all) (omega arith)
    | inr part ↦ rw (more, part) (λ z. cc)
  ]
]

module _ (P : Platform) (on_checkpoint : Option (Checkpoint → Call P.World (Unit {0})))
    (on_event : Option (TaskEvent → Call P.World (Unit {0})))
    (cancelled : Option (Call P.World Bool)) (max_pages deadline max_reconnects : ℕ)
    (c : Checkpoint) (low : ℕ) where
  abbrev Past : Session P.World → Type 0
  Past s = IsPast c low s.task.checkpoint

  is_cancelled-Past :
      (s : Session P.World)
      → Past s
      → Post
          (λ _. Past)
          Past
          (is_cancelled P on_checkpoint on_event cancelled max_pages deadline max_reconnects s)
  unfolding is_cancelled
  is_cancelled-Past s h =
      elim cancelled
        as (λ f.
          Post (λ _. Past) Past
            (is_cancelled P on_checkpoint on_event f max_pages deadline max_reconnects s)) [
              | none ↦ returned false s h
              | some f ↦ called f s (λ a w x. h) (λ w. h)
            ]

  wrapped-Past :
      (s : Session P.World)
      → Past s
      → Post
          (λ _. Past)
          Past
          (application_call
            (is_cancelled P on_checkpoint on_event cancelled max_pages deadline max_reconnects)
            s)
  unfolding application_call
  wrapped-Past s h = wraps _ (is_cancelled-Past s h)

  result-Past :
      (s : Session P.World)
      → Past s
      → Post
          (λ r t. Past t × Shows c r)
          Past
          (result_from P on_checkpoint on_event max_pages (some deadline) s)
  result-Past s (n, l, e) =
      Post-weaken _ (result_from-Post P on_checkpoint on_event max_pages (some deadline) s)
        (λ r t (same, shown). (
          (n, l, ap (λ k. k.checkpoint) same ∙ e),
          λ z. advance-IsComplete c n r (subst (λ d. IsComplete d r) e (shown z).0),
        ))
        (λ t same. (n, l, ap (λ k. k.checkpoint) same ∙ e))

  backfilled-Past :
      (s : Session P.World)
      → Past s
      → Post (λ _. Past) Past (backfill P on_checkpoint on_event max_pages (some deadline) s)
  backfilled-Past s (n, l, e) =
      backfill-Past P on_checkpoint on_event max_pages c low n (some deadline) s l e

  attempt-Post :
      (s : Session P.World)
      → Past s
      → Post
          (λ r t. Past t × Bounded max_reconnects c r)
          Past
          (attempt P on_checkpoint on_event cancelled max_pages deadline max_reconnects s)
  unfolding attempt
  attempt-Post s h =
      Post-bind (remaining P (some deadline)) _ s
        (remains P {Q = λ _. Past} (some deadline) s (λ _ w. h) (λ w. h))
        λ _ t _ g.
          Post-bind (backfill P on_checkpoint on_event max_pages (some deadline)) _ t
            (backfilled-Past t g)
            λ caught_up u _ k.
              Post-bind
                (application_call (
                  is_cancelled P on_checkpoint on_event cancelled max_pages deadline
                    max_reconnects))
                _ u (wrapped-Past u k)
                λ early v _ l. elim (Bool-cases early) [
                  | inl stop ↦ rw stop (returned _ v (l, λ z. cc))
                  | inr go ↦ rw go (
                      Post-bind (result_from P on_checkpoint on_event max_pages (some deadline)) _ v
                        (result-Past v l)
                        λ outcome w _ (m, shown).
                          Post-bind
                            (application_call (
                              is_cancelled P on_checkpoint on_event cancelled max_pages deadline
                                max_reconnects))
                            _ w (wrapped-Past w m)
                            λ late x _ n. elim (Bool-cases late) [
                              | inl stop ↦ rw stop (returned _ x (n, λ z. cc))
                              | inr go ↦ rw go (
                                  Post-bind (remaining P (some deadline)) _ x
                                    (remains P {Q = λ _. Past} (some deadline) x (λ _ y. n)
                                      (λ y. n))
                                    λ _ y _ o. returned _ y (
                                      o,
                                      observed_round-Bounded max_reconnects c
                                          u.task.checkpoint.turn_id caught_up outcome shown,
                                    ))
                            ])
                ]

  reconnect-Bounded :
      (reconnects : ℕ) (turn_id : String) (e : DeixicError) (now : ℕ)
      → Bounded max_reconnects c (
          reconnect P on_checkpoint on_event cancelled max_pages deadline max_reconnects reconnects
            turn_id e now)
  reconnect-Bounded reconnects turn_id e now = elim (Bool-cases (leb deadline now)) [
    | inl over ↦ rw over (λ z. cc)
    | inr early ↦ elim (Bool-cases (leb max_reconnects reconnects)) [
      | inl spent ↦ rw (early, spent) (λ z. cc)
      | inr left ↦ rw (early, left) (ground arith)
    ]
  ]

  handled-Post :
      (reconnects : ℕ) (r : Result Raised Round × Session P.World)
      → Post (λ a t. Past t × Bounded max_reconnects c a) Past r
      → Post
          (λ a t. Past t × Bounded max_reconnects c a)
          Past
          (handled P on_checkpoint on_event cancelled max_pages deadline max_reconnects reconnects
            r.0 r.1)
  unfolding handled
  handled-Post reconnects (ok a, s) p = returned a s p.left
  handled-Post reconnects (err deadline_reached, s) p = returned _ s (p.left, λ z. cc)
  handled-Post reconnects (err (deixic e), s) p = elim (Bool-cases (is_transient e.kind)) [
    | inl transient ↦ rw transient (
        returned _ (record s { world = (P.monotonic s.world).1 })
          (
            p.left,
            reconnect-Bounded reconnects s.task.checkpoint.turn_id e (P.monotonic s.world).0,
          ))
    | inr lasting ↦ rw lasting (raised _ s p.left)
  ]
  handled-Post reconnects (err (callback_failed e), s) p = raised _ s p.left
  handled-Post reconnects (err value_error, s) p = raised _ s p.left
  handled-Post reconnects (err (foreign e), s) p = raised _ s p.left

  pub round-Post :
      (reconnects : ℕ) (s : Session P.World)
      → Past s
      → Post
          (λ a t. Past t × Bounded max_reconnects c a)
          Past
          (round P on_checkpoint on_event cancelled max_pages deadline max_reconnects reconnects s)
  unfolding round
  round-Post reconnects s h =
      Post-bind (is_cancelled P on_checkpoint on_event cancelled max_pages deadline max_reconnects)
        _ s (is_cancelled-Past s h)
        λ stop t _ g. elim (Bool-cases stop) [
          | inl stopped ↦ rw stopped (returned _ t (g, λ z. cc))
          | inr going ↦ rw going (
              handled-Post reconnects
                (attempt P on_checkpoint on_event cancelled max_pages deadline max_reconnects t)
                (attempt-Post t g))
        ]
