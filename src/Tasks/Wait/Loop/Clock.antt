-- ===== src/Tasks/Wait/Loop/Clock.antt =====
-- What the sleeps of `Task.wait` do to its clock.
use deixic_python.Base.{
  ℕ, zero, suc, ◌+◌, ◌-◌, ◌*◌, ◌/◌, ◌^◌, ◌≤◌, min, Bool, true, false, ◌≡◌, refl, Option, none, some,
  inl, inr, Bool-cases, leb, arith,
}
use deixic_python.Base.Post.{Post, returned, Post-bind, Post-weaken}
use deixic_python.Value.{Value}
use deixic_python.Tasks.Types.{Checkpoint, TaskEvent}
use deixic_python.Tasks.Checks.{is_positive}
use deixic_python.Tasks.Platform.{Platform, Call, Session}
use deixic_python.Client.{billion, billionths}
use deixic_python.Tasks.Wait.Loop.{Timer, span, stops, nap_on, nap, rest}
use deixic_python.Tasks.Wait.Loop.Keeps.{Steady, is_cancelled-Holds}

-- A clock that does not go back, of which `Reached n w` says that it reads `n` at least from `w` on: no
-- call turns it back, a sleep lasts as long as it is asked to, and a jittered span is not empty.
pub record Ticking (P : Platform) (timer : Timer P.World)
    (on_checkpoint : Option (Checkpoint → Call P.World (Unit {0})))
    (on_event : Option (TaskEvent → Call P.World (Unit {0})))
    (cancelled : Option (Call P.World Bool)) (Reached : ℕ → P.World → Type 0) : Type 0 where
  pub steady : (n : ℕ) → Steady P on_checkpoint on_event cancelled (Reached n)
  pub begins : (w : P.World) → Reached 0 w
  pub reads :
      (n : ℕ) (w : P.World)
      → Reached n w
      → (n ≤ (P.monotonic w).0) × Reached (P.monotonic w).0 (P.monotonic w).1
  pub sleeps :
      (n length : ℕ) (w : P.World) → Reached n w → Reached (n + length) (timer.sleep length w)
  pub jitters : (n length : ℕ) (w : P.World) → Reached n w → Reached n (timer.jitter length w).1
  pub delays : (length : ℕ) (w : P.World) → 1 ≤ length → 1 ≤ (timer.jitter length w).0

nap-size : 1 ≤ billion / 10
nap-size = omega arith

nap-progress :
    (n now later until fuel tenth : ℕ)
    → 1 ≤ tenth
    → n ≤ now
    → now ≤ later
    → leb until now ≡ false
    → suc until ≤ n + suc fuel
    → (1 ≤ fuel) × (suc until ≤ (later + min tenth (until - later)) + fuel)
nap-progress n now later until fuel tenth t a b c d = ground arith

pub positive-billionths : (v : Value) → is_positive v ≡ true → 1 ≤ billionths v
unfolding is_positive billionths
positive-billionths v h = ground arith

power_pos : (n : ℕ) → 1 ≤ 2 ^ n
power_pos zero = omega arith
power_pos (suc n) = omega (arith, power_pos n)

times_pos : (m n : ℕ) → 1 ≤ m → 1 ≤ n → 1 ≤ m * n
times_pos m zero h k = absurd (omega arith)
times_pos m (suc n) h k = times_suc m n (m * n) h refl
  where
    times_suc : (m n p : ℕ) → 1 ≤ m → m * n ≡ p → 1 ≤ m * suc n
    times_suc m n p h e = grind arith

span-some : (poll_interval reconnects : ℕ) → 1 ≤ poll_interval → 1 ≤ span poll_interval reconnects
span-some poll_interval reconnects h =
    let large : 1 ≤ poll_interval * 2 ^ reconnects =
      times_pos poll_interval (2 ^ reconnects) h (power_pos reconnects) in
    ground arith

module _ (P : Platform) (timer : Timer P.World)
    (on_checkpoint : Option (Checkpoint → Call P.World (Unit {0})))
    (on_event : Option (TaskEvent → Call P.World (Unit {0})))
    (cancelled : Option (Call P.World Bool)) (Reached : ℕ → P.World → Type 0)
    (ticking : Ticking P timer on_checkpoint on_event cancelled Reached) where
  module _ (max_pages deadline max_reconnects : ℕ) where
    -- What a sleep until a time comes to.
    abbrev pub Slept : ℕ → Option Bool → Session P.World → Type 0
    Slept until none t = ⊥
    Slept until (some true) t = Unit
    Slept until (some false) t = (m : ℕ) × (until ≤ m) × Reached m t.world

    nap-Post :
        (fuel until n : ℕ) (s : Session P.World)
        → Reached n s.world
        → 1 ≤ fuel
        → suc until ≤ n + fuel
        → Post
            (Slept until)
            (λ _. Unit)
            (nap P timer on_checkpoint on_event cancelled max_pages deadline max_reconnects fuel
              until s)
    unfolding nap nap_on
    nap-Post zero until n s r f h = absurd (omega arith)
    nap-Post (suc fuel) until n s r f h =
        let (now, w) = P.monotonic s.world in
        let (later_than, r1) = ticking.reads n s.world r in
        elim (Bool-cases (leb until now)) [
          | inl over ↦ rw over (returned _ (record s { world = w }) (now, ground arith, r1))
          | inr early ↦ rw early (
              Post-bind
                (stops P timer on_checkpoint on_event cancelled max_pages deadline max_reconnects) _
                (record s { world = w })
                (Post-weaken {R = λ _ t. Reached now t.world} {K = λ _. Unit} _
                  (is_cancelled-Holds P on_checkpoint on_event cancelled (Reached now)
                    (ticking.steady now) max_pages deadline max_reconnects (record s { world = w })
                    r1)
                  (λ _ _ x. x) (λ _ _. tt))
                λ stop t _ r2. elim (Bool-cases stop) [
                  | inl stopped ↦ rw stopped (returned _ t tt)
                  | inr going ↦
                      let (later, v) = P.monotonic t.world in
                      let (after, r3) = ticking.reads now t.world r2 in
                      let d = min (billion / 10) (until - later) in
                      let (fuel_left, enough) =
                        nap-progress n now later until fuel (billion / 10) nap-size later_than after
                          early h in
                      rw going (
                        nap-Post fuel until (later + d) (record t { world = timer.sleep d v })
                          (ticking.sleeps later d v r3) fuel_left enough)
                ])
        ]

    Slept-sooner :
        (until sooner : ℕ) (o : Option Bool) (t : Session P.World)
        → sooner ≤ until
        → Slept until o t
        → Slept sooner o t
    Slept-sooner until sooner none t h x = x
    Slept-sooner until sooner (some true) t h x = tt
    Slept-sooner until sooner (some false) t h (m, k, r) = (m, omega arith, r)

    -- The pause behind a round takes the clock to a later time, or to the deadline.
    pub rest-Post :
        (naps poll_interval reconnects n : ℕ) (s : Session P.World)
        → Reached n s.world
        → 1 ≤ poll_interval
        → 1 ≤ naps
        → suc deadline ≤ n + naps
        → Post
            (Slept (min deadline (suc n)))
            (λ _. Unit)
            (rest P timer on_checkpoint on_event cancelled max_pages deadline max_reconnects naps
              poll_interval reconnects s)
    unfolding rest
    rest-Post naps poll_interval reconnects n s r poll f h =
        let (delay, v) = timer.jitter (span poll_interval reconnects) s.world in
        let some_delay : 1 ≤ delay =
          ticking.delays _ s.world (span-some poll_interval reconnects poll) in
        let (later, r1) = ticking.reads n v (ticking.jitters n _ s.world r) in
        let (now, w) = P.monotonic v in
        let until = min deadline (now + delay) in
        Post-weaken _ (nap-Post naps until now (record s { world = w }) r1 f (ground arith))
          (λ o t x. Slept-sooner until (min deadline (suc n)) o t (ground arith) x) (λ _ _. tt)
