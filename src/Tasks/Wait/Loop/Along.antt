-- ===== src/Tasks/Wait/Loop/Along.antt =====
-- What the loop of `Task.wait` leaves of its handle, and what it returns.
use deixic_python.Base.{
  ℕ, zero, suc, ◌+◌, ◌-◌, min, ◌/◌, Bool, true, false, ◌≡◌, refl, sym, subst, Option, none, some,
  inl, inr, Bool-cases, leb, Result,
}
use deixic_python.Base.Post.{Post, returned, Post-bind, Post-weaken}
use deixic_python.Tasks.Types.{Checkpoint, TaskEvent, TaskResult, Raised}
use deixic_python.Tasks.Platform.{Platform, Call, TaskState, Session, Run}
use deixic_python.Tasks.Platform.Steps.{called_at}
use deixic_python.Tasks.Backfill.Progress.{IsPast}
use deixic_python.Client.{billion}
use deixic_python.Tasks.Wait.{Round, finished, again, is_cancelled, round}
use deixic_python.Tasks.Wait.Steps.{Shows, Bounded, round-Post}
use deixic_python.Tasks.Wait.Loop.{Timer, span, stops, nap_on, nap, rest, rested, behind, loop}

-- A completed result that is shown is complete.
abbrev pub ShowsSome : Checkpoint → Option TaskResult → Type 0
ShowsSome c none = Unit
ShowsSome c (some r) = Shows c r

module _ (P : Platform) (timer : Timer P.World)
    (on_checkpoint : Option (Checkpoint → Call P.World (Unit {0})))
    (on_event : Option (TaskEvent → Call P.World (Unit {0})))
    (cancelled : Option (Call P.World Bool)) where
  module _ (max_pages deadline max_reconnects : ℕ) (k : TaskState) where
    abbrev Same : {A : Type 0} → Result Raised A × Session P.World → Type 0
    Same r = Post (λ _ t. t.task ≡ k) (λ t. t.task ≡ k) r

    stops-Same :
        (s : Session P.World)
        → s.task ≡ k
        → Same (stops P timer on_checkpoint on_event cancelled max_pages deadline max_reconnects s)
    unfolding is_cancelled
    stops-Same s h =
        elim cancelled
          as (λ f.
            Same (stops P timer on_checkpoint on_event f max_pages deadline max_reconnects s)) [
              | none ↦ returned false s h
              | some f ↦ called_at f s (λ _ _. h) h
            ]

    nap-Same :
        (fuel until : ℕ) (s : Session P.World)
        → s.task ≡ k
        → Same (
            nap P timer on_checkpoint on_event cancelled max_pages deadline max_reconnects fuel
              until s)
    unfolding nap nap_on
    nap-Same zero until s h = returned none s h
    nap-Same (suc fuel) until s h =
        let (now, w) = P.monotonic s.world in
        elim (Bool-cases (leb until now)) [
          | inl over ↦ rw over (returned _ (record s { world = w }) h)
          | inr early ↦ rw early (
              Post-bind
                (stops P timer on_checkpoint on_event cancelled max_pages deadline max_reconnects) _
                (record s { world = w }) (stops-Same (record s { world = w }) h)
                λ stop t _ g. elim (Bool-cases stop) [
                  | inl stopped ↦ rw stopped (returned _ t g)
                  | inr going ↦
                      let (later, v) = P.monotonic t.world in
                      rw going (
                        nap-Same fuel until
                          (record t { world = timer.sleep (min (billion / 10) (until - later)) v })
                          g)
                ])
        ]

    rest-Same :
        (naps poll_interval reconnects : ℕ) (s : Session P.World)
        → s.task ≡ k
        → Same (
            rest P timer on_checkpoint on_event cancelled max_pages deadline max_reconnects naps
              poll_interval reconnects s)
    unfolding rest
    rest-Same naps poll_interval reconnects s h =
        let (delay, v) = timer.jitter (span poll_interval reconnects) s.world in
        let (now, w) = P.monotonic v in
        nap-Same naps (min deadline (now + delay)) (record s { world = w }) h

  module _ (max_pages deadline max_reconnects : ℕ) (c : Checkpoint) (low : ℕ) where
    abbrev Past : Session P.World → Type 0
    Past t = IsPast c low t.task.checkpoint

    abbrev Watched : Result Raised (Option TaskResult) × Session P.World → Type 0
    Watched r = Post (λ o t. Past t × ShowsSome c o) Past r

    rested-Watched :
        (next : Run P.World (Option TaskResult)) (o : Option Bool) (s : Session P.World)
        → Past s
        → Watched (next s)
        → Watched (
            rested P timer on_checkpoint on_event cancelled max_pages deadline max_reconnects next o
              s)
    rested-Watched next none s h n = returned _ s (h, tt)
    rested-Watched next (some true) s h n = returned _ s (h, λ z. cc)
    rested-Watched next (some false) s h n = n

    behind-Watched :
        (naps poll_interval : ℕ) (next : ℕ → Run P.World (Option TaskResult)) (outcome : Round)
        (s : Session P.World)
        → Past s
        → Bounded max_reconnects c outcome
        → ((m : ℕ) (t : Session P.World) → Past t → Watched (next m t))
        → Watched (
            behind P timer on_checkpoint on_event cancelled max_pages deadline max_reconnects naps
              poll_interval next outcome s)
    behind-Watched naps poll_interval next (finished r) s h b n = returned _ s (h, b)
    behind-Watched naps poll_interval next (again m) s h b n =
        let moved = λ (t : Session P.World) (e : t.task ≡ s.task).
          subst (λ (q : TaskState). IsPast c low q.checkpoint) (sym e) h in
        Post-bind
          (rest P timer on_checkpoint on_event cancelled max_pages deadline max_reconnects naps
            poll_interval m)
          _ s
          (Post-weaken {R = λ _ t. Past t} {K = Past} _
            (rest-Same max_pages deadline max_reconnects s.task naps poll_interval m s refl)
            (λ _ t e. moved t e) (λ t e. moved t e))
          λ o t _ g. rested-Watched (next m) o t g (n m t g)

    pub loop-Watched :
        (naps poll_interval fuel reconnects : ℕ) (s : Session P.World)
        → Past s
        → Watched (
            loop P timer on_checkpoint on_event cancelled max_pages deadline max_reconnects naps
              poll_interval fuel reconnects s)
    unfolding loop
    loop-Watched naps poll_interval zero reconnects s h = returned none s (h, tt)
    loop-Watched naps poll_interval (suc fuel) reconnects s h =
        Post-bind
          (round P on_checkpoint on_event cancelled max_pages deadline max_reconnects reconnects) _
          s
          (round-Post P on_checkpoint on_event cancelled max_pages deadline max_reconnects c low
            reconnects s h)
          λ outcome t _ (g, b).
            behind-Watched naps poll_interval
              (loop P timer on_checkpoint on_event cancelled max_pages deadline max_reconnects naps
                poll_interval fuel)
              outcome t g b λ m u k. loop-Watched naps poll_interval fuel m u k
