-- ===== src/Tasks/Backfill/Progress.antt =====
-- Reading the owner's events moves the cursor onward and changes nothing else of a checkpoint.
use deixic_python.Base.{
  ℕ, zero, suc, ◌≤◌, String, true, false, ◌≡◌, refl, ap, ◌∙◌, inl, inr, Option, none, some, List,
  [], ◌∷◌, Bool-cases, arith,
}
use deixic_python.Base.Int.{ℤ, pos, negsuc, ◌≤ℤ◌, ltb_ℤ}
use deixic_python.Base.Decimal.{int, str, str_ℕ, int-str_ℕ, value}
use deixic_python.Base.Post.{Post, returned, raised, Post-bind, Post-weaken, Post-state}
use deixic_python.Base.Text.{text_eq_iff}
use deixic_python.Tasks.Checks.{is_decimal}
use deixic_python.Errors.{DeixicError}
use deixic_python.Tasks.Types.{Checkpoint, TaskEvent, EventPage}
use deixic_python.Tasks.Platform.{
  Platform, Call, Session, call, stored_int, application_call, remaining,
}
use deixic_python.Tasks.Platform.Steps.{called, saves_wrapped, parses, remains, wraps}
use deixic_python.Tasks.Pages.{page_refusal, sort_events}
use deixic_python.Tasks.Pages.Accepted.{page_refusal-IsSound}
use deixic_python.Tasks.Backfill.{
  is_skipped, raise_if_refused, advance, notify, deliver, consume, reset, next_page, backfill,
}

int-str : (n : ℕ) → int (str (pos n)) ≡ some (pos n)
unfolding str
int-str n = int-str_ℕ n

canonical : (s : String) → is_decimal s ≡ true → s ≡ str (pos (value 0 s))
unfolding is_decimal str
canonical s h = ground (arith, text_eq_iff (str_ℕ (value 0 s)) s)

same_int : (o : Option ℤ) (m n : ℤ) → o ≡ some m → o ≡ some n → m ≡ n
same_int o m n h k = cc

not_below : (n : ℕ) (r : ℤ) → ltb_ℤ r (pos n) ≡ false → pos n ≤ℤ r
not_below n r h = ground arith

-- A checkpoint at a later cursor, and otherwise the same.
abbrev pub IsPast : Checkpoint → ℕ → Checkpoint → Type 0
IsPast c low d = (n : ℕ) × (low ≤ n) × (d ≡ advance (pos n) c)

moved :
    (c : Checkpoint) (low n : ℕ) (r : ℤ) (d : Checkpoint)
    → low ≤ n
    → pos n ≤ℤ r
    → d ≡ advance (pos n) c
    → IsPast c low (advance r d)
moved c low n (pos m) d h k e = (m, omega arith, ap (advance (pos m)) e)
moved c low n (negsuc m) d h k e = absurd (omega arith)

pub refuses {ℓ} :
    {World : Type 0} {Q : Unit {0} → Session World → Type ℓ} {J : Session World → Type ℓ}
    (o : Option DeixicError) (s : Session World)
    → (o ≡ none → Q tt s)
    → J s
    → Post Q J (raise_if_refused o s)
refuses none s q j = returned tt s (q refl)
refuses (some e) s q j = raised _ s j

module _ (P : Platform) (on_checkpoint : Option (Checkpoint → Call P.World (Unit {0})))
    (on_event : Option (TaskEvent → Call P.World (Unit {0}))) where
  -- The checkpoint of a handle.
  abbrev Has : Checkpoint → Session P.World → Type 0
  Has c s = s.task.checkpoint ≡ c

  notify-Has :
      (c : Checkpoint) (e : TaskEvent) (s : Session P.World)
      → Has c s
      → Post (λ _. Has c) (Has c) (notify P on_checkpoint on_event e s)
  unfolding notify application_call
  notify-Has c e s h =
      elim on_event as (λ f. Post (λ _. Has c) (Has c) (notify P on_checkpoint f e s)) [
        | none ↦ returned tt s h
        | some f ↦ wraps _ (called (f e) s (λ a w x. h) (λ w. h))
      ]

  deliver-Has :
      (c : Checkpoint) (turn_id : String) (cursor : ℤ) (seen : List ℤ) (es : List TaskEvent)
      (s : Session P.World)
      → Has c s
      → Post (λ _. Has c) (Has c) (deliver P on_checkpoint on_event turn_id cursor seen es s)
  unfolding deliver
  deliver-Has c turn_id cursor seen [] s h = returned tt s h
  deliver-Has c turn_id cursor seen (e ∷ es) s h =
      elim (Bool-cases (is_skipped turn_id cursor seen e)) [
        | inl skipped ↦ rw skipped (deliver-Has c turn_id cursor seen es s h)
        | inr delivered ↦ rw delivered (
            Post-bind (notify P on_checkpoint on_event e) _ s (notify-Has c e s h)
              λ a t x g. deliver-Has c turn_id cursor (e.cursor ∷ seen) es _ g)
      ]

  abbrev Past : Checkpoint → ℕ → Session P.World → Type 0
  Past c low s = IsPast c low s.task.checkpoint

  reset-Past :
      (c : Checkpoint) (low n : ℕ) (snapshot : Option ℤ) (s : Session P.World)
      → low ≤ n
      → Has (advance (pos n) c) s
      → Post (λ _. Past c low) (Past c low) (reset P on_checkpoint on_event snapshot (pos n) s)
  unfolding reset
  reset-Past c low n none s h e = raised _ s (n, h, e)
  reset-Past c low n (some r) s h e = elim (Bool-cases (ltb_ℤ r (pos n))) [
    | inl back ↦ rw back (raised _ s (n, h, e))
    | inr onward ↦ rw onward (
        saves_wrapped on_checkpoint _ (λ w. moved c low n r _ h (not_below n r onward) e)
          (λ w. moved c low n r _ h (not_below n r onward) e))
  ]

  consume-Past :
      (c : Checkpoint) (low n : ℕ) (page : EventPage) (s : Session P.World)
      → low ≤ n
      → Has (advance (pos n) c) s
      → Post (λ _. Past c low) (Past c low) (consume P on_checkpoint on_event page (pos n) s)
  unfolding consume
  consume-Past c low n page s h e =
      Post-bind (raise_if_refused (page_refusal P.serialize page (pos n))) _ s
        (refuses
          {Q = λ _ t. (page_refusal P.serialize page (pos n) ≡ none) × Has (advance (pos n) c) t} _
          s (λ clear. (clear, e)) (n, h, e))
        λ _ t _ (clear, same).
          Post-bind
            (deliver P on_checkpoint on_event t.task.checkpoint.turn_id (pos n) []
              (sort_events page.events))
            _ t
            (Post-weaken _ (deliver-Has _ _ (pos n) [] _ t same) (λ _ _ g. g) (λ _ g. (n, h, g)))
            λ _ u _ g.
              let onward = (page_refusal-IsSound P.serialize page (pos n) clear).onward in
              saves_wrapped on_checkpoint _ (λ w. moved c low n page.next_cursor _ h onward g)
                (λ w. moved c low n page.next_cursor _ h onward g)

  -- The page and the cursor at which it was asked for.
  next_page-Past :
      (c : Checkpoint) (low n : ℕ) (deadline : Option ℕ) (s : Session P.World)
      → low ≤ n
      → Has (advance (pos n) c) s
      → Post
          (λ x t. (x.1 ≡ pos n) × Has (advance (pos n) c) t)
          (Past c low)
          (next_page P on_checkpoint on_event deadline s)
  unfolding next_page
  next_page-Past c low n deadline s h e =
      Post-bind (stored_int s.task.checkpoint.cursor) _ s
        (parses {Q = λ m t. (m ≡ pos n) × Has (advance (pos n) c) t} _ s
          (λ m x. (same_int _ m (pos n) x (ap (λ (d : Checkpoint). int d.cursor) e ∙ int-str n), e))
          (n, h, e))
        λ m t _ (at, g).
          Post-bind (remaining P deadline) _ t
            (remains P {Q = λ _. Has (advance (pos n) c)} deadline t (λ _ w. g) (λ w. (n, h, g)))
            λ left u _ k.
              Post-bind
                (call (
                  P.list_events (record {
                    channel_id = s.task.checkpoint.channel_id;
                    after_cursor = m;
                    timeout = left;
                  })))
                _ u
                (called {Q = λ _. Has (advance (pos n) c)}
                  (P.list_events (record {
                    channel_id = s.task.checkpoint.channel_id;
                    after_cursor = m;
                    timeout = left;
                  }))
                  u (λ _ w _. k) (λ w. (n, h, k)))
                λ page v _ l. returned (page, m) v (at, l)

  pub backfill-Past :
      (pages : ℕ) (c : Checkpoint) (low n : ℕ) (deadline : Option ℕ) (s : Session P.World)
      → low ≤ n
      → Has (advance (pos n) c) s
      → Post (λ _. Past c low) (Past c low) (backfill P on_checkpoint on_event pages deadline s)
  unfolding backfill
  backfill-Past zero c low n deadline s h e = returned false s (n, h, e)
  backfill-Past (suc pages) c low n deadline s h e =
      Post-bind (next_page P on_checkpoint on_event deadline) _ s
        (next_page-Past c low n deadline s h e)
        λ (page, cursor) t _ (at, g). elim (Bool-cases page.reset_required) [
          | inl renewed ↦
              rw (renewed, at)
                (Post-bind (reset P on_checkpoint on_event page.snapshot (pos n)) _ t
                  (reset-Past c low n page.snapshot t h g) λ _ u _ k. returned true u k)
          | inr kept ↦
              rw (kept, at)
                (Post-bind (consume P on_checkpoint on_event page (pos n)) _ t
                  (consume-Past c low n page t h g)
                  λ _ u _ k. elim (Bool-cases page.has_more) [
                    | inl more ↦ rw more (backfill-Past pages c low k.0 deadline u k.1 k.2)
                    | inr last ↦ rw last (returned true u k)
                  ])
        ]

  pub at-canonical :
      (d : Checkpoint) → is_decimal d.cursor ≡ true → d ≡ advance (pos (value 0 d.cursor)) d
  at-canonical d h = λ i. record d { cursor = canonical d.cursor h i }

  -- Reading the owner's events, from a checkpoint whose cursor is canonical, leaves a canonical cursor
  -- that is at least the one before and changes nothing else of the checkpoint: not the request, the
  -- tenant, the submission, the turn or its sequence. This holds whether it returns or raises,
  -- whatever the server and the application's callbacks do, resets by the server included.
  pub backfill-IsPast :
      (pages : ℕ) (deadline : Option ℕ) (s : Session P.World)
      → is_decimal s.task.checkpoint.cursor ≡ true
      → IsPast s.task.checkpoint
          (value 0 s.task.checkpoint.cursor)
          (backfill P on_checkpoint on_event pages deadline s).1.task.checkpoint
  backfill-IsPast pages deadline s h =
      let c = s.task.checkpoint in
      Post-state (Past c (value 0 c.cursor)) (backfill P on_checkpoint on_event pages deadline s)
        (backfill-Past pages c (value 0 c.cursor) (value 0 c.cursor) deadline s (omega arith)
          (at-canonical c h))
        (λ _ t k. k) (λ t k. k)
