-- ===== src/Tasks/Wait/Loop/Ends.antt =====
-- `Task.wait` ends: its clock passes the deadline.
use deixic_python.Base.{
  ℕ, zero, suc, ◌+◌, ◌≤◌, min, String, Bool, true, false, ◌≡◌, Option, none, some, arith, Result,
  ok, err,
}
use deixic_python.Base.Int.{pos}
use deixic_python.Base.Post.{Post, returned, raised, Post-bind}
use deixic_python.Value.{Value}
use deixic_python.Tasks.Types.{Checkpoint, TaskEvent, TaskResult, Raised}
use deixic_python.Tasks.Checks.{pages, positive, is_positive}
use deixic_python.Tasks.Platform.{Platform, Call, Session, Run, checked}
use deixic_python.Tasks.Platform.Steps.{checks}
use deixic_python.Client.{billionths}
use deixic_python.Tasks.Wait.{result, Round, finished, again, round}
use deixic_python.Tasks.Wait.Loop.{
  Timer, reconnect_attempts, is_accepted, set_observing, rest, rested, behind, loop, observe,
  observe_if, wait,
}
use deixic_python.Tasks.Wait.Loop.Clock.{Ticking, Slept, rest-Post, positive-billionths}
use deixic_python.Tasks.Wait.Loop.Rounds.{Timely, round-Post}

-- A run has not run out of fuel.
abbrev IsGiven : Option TaskResult → Type 0
IsGiven none = ⊥
IsGiven (some r) = Unit

positive-ok :
    (v : Value) (name : String) (a : Unit {0}) → positive v name ≡ ok a → is_positive v ≡ true
unfolding positive
positive-ok v name a h = ground arith

given :
    {World : Type 0} (r : Result Raised (Option TaskResult) × Session World)
    → Post (λ o _. IsGiven o) (λ _. Unit) r
    → r.0 ≡ ok none
    → ⊥
given (ok none, t) p h = p.left
given (ok (some r), t) p h = cc
given (err e, t) p h = cc

module _ (P : Platform) (timer : Timer P.World)
    (on_checkpoint : Option (Checkpoint → Call P.World (Unit {0})))
    (on_event : Option (TaskEvent → Call P.World (Unit {0})))
    (cancelled : Option (Call P.World Bool)) (Reached : ℕ → P.World → Type 0)
    (ticking : Ticking P timer on_checkpoint on_event cancelled Reached) where
  module _ (max_pages deadline max_reconnects : ℕ) where
    rested-Post :
        (n : ℕ) (next : Run P.World (Option TaskResult)) (o : Option Bool) (s : Session P.World)
        → suc n ≤ deadline
        → Slept P timer on_checkpoint on_event cancelled Reached ticking max_pages deadline
            max_reconnects
            (min deadline (suc n))
            o
            s
        → ((m : ℕ) → suc n ≤ m → Reached m s.world → Post (λ o _. IsGiven o) (λ _. Unit) (next s))
        → Post
            (λ o _. IsGiven o)
            (λ _. Unit)
            (rested P timer on_checkpoint on_event cancelled max_pages deadline max_reconnects next
              o s)
    rested-Post n next none s small x k = absurd x
    rested-Post n next (some true) s small x k = returned _ s tt
    rested-Post n next (some false) s small (m, h, r) k = k m (ground arith) r

    behind-Post :
        (naps poll_interval fuel n : ℕ) (outcome : Round) (t : Session P.World)
        → 1 ≤ poll_interval
        → 1 ≤ naps
        → suc deadline ≤ n + naps
        → Timely P timer on_checkpoint on_event cancelled Reached ticking max_pages deadline
            max_reconnects n outcome t
        → ((m q : ℕ) (u : Session P.World)
            → suc n ≤ m
            → suc n ≤ deadline
            → Reached m u.world
            → Post
                (λ o _. IsGiven o)
                (λ _. Unit)
                (loop P timer on_checkpoint on_event cancelled max_pages deadline max_reconnects
                  naps poll_interval fuel q u))
        → Post
            (λ o _. IsGiven o)
            (λ _. Unit)
            (behind P timer on_checkpoint on_event cancelled max_pages deadline max_reconnects naps
              poll_interval
              (loop P timer on_checkpoint on_event cancelled max_pages deadline max_reconnects naps
                poll_interval fuel)
              outcome
              t)
    behind-Post naps poll_interval fuel n (finished r) t poll some_naps h x next =
        returned (some r) t tt
    behind-Post naps poll_interval fuel n (again q) t poll some_naps h (k, a, b, c) next =
        Post-bind
          (rest P timer on_checkpoint on_event cancelled max_pages deadline max_reconnects naps
            poll_interval q)
          _ t
          (rest-Post P timer on_checkpoint on_event cancelled Reached ticking max_pages deadline
            max_reconnects naps poll_interval q k t c poll some_naps (omega arith))
          λ o u _ slept.
            rested-Post k _ o u b slept λ m later r. next m q u (omega arith) (omega arith) r

    loop-Post :
        (naps poll_interval fuel reconnects n : ℕ) (s : Session P.World)
        → Reached n s.world
        → 1 ≤ poll_interval
        → 1 ≤ naps
        → suc deadline ≤ n + naps
        → 1 ≤ fuel
        → suc deadline ≤ n + fuel
        → Post
            (λ o _. IsGiven o)
            (λ _. Unit)
            (loop P timer on_checkpoint on_event cancelled max_pages deadline max_reconnects naps
              poll_interval fuel reconnects s)
    unfolding loop
    loop-Post naps poll_interval zero reconnects n s r poll some_naps h f g = absurd (omega arith)
    loop-Post naps poll_interval (suc fuel) reconnects n s r poll some_naps h f g =
        Post-bind
          (round P on_checkpoint on_event cancelled max_pages deadline max_reconnects reconnects) _
          s
          (round-Post P timer on_checkpoint on_event cancelled Reached ticking max_pages deadline
            max_reconnects n reconnects s r)
          λ outcome t _ x.
            behind-Post naps poll_interval fuel n outcome t poll some_naps h x λ m q u a b r1.
              loop-Post naps poll_interval fuel q m u r1 poll some_naps (omega arith) (omega arith)
                (omega arith)

  -- A run that gives a result or raises.
  abbrev Gives : Result Raised (Option TaskResult) × Session P.World → Type 0
  Gives r = Post (λ o _. IsGiven o) (λ _. Unit) r

  unwatched :
      (r : Result Raised (Option TaskResult) × Session P.World)
      → Gives r
      → Gives (r.0, set_observing P false r.1)
  unwatched (ok o, t) p = returned o _ p.left
  unwatched (err e, t) p = raised e _ tt

  observe-Gives :
      (timeout poll_interval max_pages max_reconnects : ℕ) (s : Session P.World)
      → 1 ≤ poll_interval
      → Gives (
          observe P timer on_checkpoint on_event cancelled timeout poll_interval max_pages
            max_reconnects s)
  unfolding observe
  observe-Gives timeout poll_interval max_pages max_reconnects s h =
      let (now, w) = P.monotonic s.world in
      let started = set_observing P true (record s { world = w }) in
      unwatched
        (loop P timer on_checkpoint on_event cancelled max_pages (now + timeout) max_reconnects
          (suc timeout) poll_interval (suc timeout) 0 started)
        (loop-Post max_pages (now + timeout) max_reconnects (suc timeout) poll_interval
          (suc timeout) 0 now started (ticking.reads 0 s.world (ticking.begins s.world)).1 h
          (omega arith) (omega arith) (omega arith) (omega arith))

  any-Post :
      {A : Type 0} (r : Result Raised A × Session P.World)
      → Post (λ _ _. Unit {0}) (λ _. Unit {0}) r
  any-Post (ok a, t) = returned a t tt
  any-Post (err e, t) = raised e t tt

  observe_if-Gives :
      (observing accepted_yet : Bool) (run : Run P.World (Option TaskResult)) (s : Session P.World)
      → Gives (run s)
      → Gives (observe_if P timer on_checkpoint on_event cancelled observing accepted_yet run s)
  observe_if-Gives true accepted_yet run s g = raised _ s tt
  observe_if-Gives false true run s g = g
  observe_if-Gives false false run s g =
      Post-bind (result P on_checkpoint on_event (Value.int (pos 10))) _ s
        (any-Post (result P on_checkpoint on_event (Value.int (pos 10)) s))
        λ r t _ _. returned (some r) t tt

  wait-Gives :
      (timeout poll_interval max_pages max_reconnect_attempts : Value) (s : Session P.World)
      → Gives (
          wait P timer on_checkpoint on_event cancelled timeout poll_interval max_pages
            max_reconnect_attempts s)
  unfolding wait
  wait-Gives timeout poll_interval max_pages max_reconnect_attempts s =
      Post-bind (checked (positive timeout "timeout")) _ s
        (any-Post (checked (positive timeout "timeout") s))
        λ _ t _ _.
          Post-bind (checked (positive poll_interval "poll_interval")) _ t
            (checks {Q = λ _ _. 1 ≤ billionths poll_interval}
              (positive poll_interval "poll_interval") t
              (λ a e.
                positive-billionths poll_interval (positive-ok poll_interval "poll_interval" a e))
              tt)
            λ _ u _ poll.
              Post-bind (checked (pages max_pages)) _ u (any-Post (checked (pages max_pages) u))
                λ bound v _ _.
                  Post-bind (checked (reconnect_attempts max_reconnect_attempts)) _ v
                    (any-Post (checked (reconnect_attempts max_reconnect_attempts) v))
                    λ reconnects w _ _.
                      observe_if-Gives w.task.observing (is_accepted w.task.checkpoint.submission) _
                        w
                        (observe-Gives (billionths timeout) (billionths poll_interval) bound
                          reconnects w poll)

  -- `wait` ends with a result or an exception, whatever it is given and whatever the server and the
  -- application do: the fuel of its loops, the timeout and one, is enough. The clock does not go back
  -- and a sleep lasts as long as it is asked to, the jitter of a span is not empty, and no call of the
  -- client or of a callback turns the clock back.
  pub wait-ends :
      (timeout poll_interval max_pages max_reconnect_attempts : Value) (s : Session P.World)
      → (wait P timer on_checkpoint on_event cancelled timeout poll_interval max_pages
          max_reconnect_attempts s).0
        ≡ ok none
      → ⊥
  wait-ends timeout poll_interval max_pages max_reconnect_attempts s h =
      given
        (wait P timer on_checkpoint on_event cancelled timeout poll_interval max_pages
          max_reconnect_attempts s)
        (wait-Gives timeout poll_interval max_pages max_reconnect_attempts s) h
