-- ===== src/Tasks/Wait/Loop/Keeps.antt =====
-- A property of the world that every call keeps is kept by a round of `Task.wait`.
use deixic_python.Base.{
  ℕ, zero, suc, String, Bool, true, false, Option, none, some, List, [], ◌∷◌, inl, inr, Bool-cases,
  leb, Result, ok, err,
}
use deixic_python.Base.Int.{ℤ, ltb_ℤ}
use deixic_python.Base.Post.{Post, returned, raised, Post-bind}
use deixic_python.Errors.{DeixicError}
use deixic_python.Tasks.Types.{Checkpoint, TaskEvent, EventPage, Raised}
use deixic_python.Tasks.Pages.{page_refusal, sort_events}
use deixic_python.Tasks.Platform.{
  Platform, ThreadRequest, EventsRequest, ReceiptRequest, Call, Session, Run, call,
  raise_protocol_if, stored_int, application_call, wrapped, save, remaining,
}
use deixic_python.Tasks.Platform.Steps.{parses}
use deixic_python.Tasks.Backfill.{
  is_skipped, raise_if_refused, notify, deliver, consume, reset, next_page, backfill,
}
use deixic_python.Tasks.Wait.{is_cancelled}

-- A callback keeps a property of the world.
abbrev pub Calls : {World A B : Type 0} → Option (A → Call World B) → (World → Type 0) → Type 0
Calls none I = Unit
Calls (some f) I = (a : _) (w : _) → I w → I (f a w).1

abbrev pub Stops : {World : Type 0} → Option (Call World Bool) → (World → Type 0) → Type 0
Stops none I = Unit
Stops (some f) I = (w : _) → I w → I (f w).1

-- What an observation calls keeps a property of the world.
pub record Steady (P : Platform) (on_checkpoint : Option (Checkpoint → Call P.World (Unit {0})))
    (on_event : Option (TaskEvent → Call P.World (Unit {0})))
    (cancelled : Option (Call P.World Bool)) (I : P.World → Type 0) : Type 0 where
  pub by_thread : (q : ThreadRequest) (w : P.World) → I w → I (P.get_thread q w).1
  pub by_events : (q : EventsRequest) (w : P.World) → I w → I (P.list_events q w).1
  pub by_receipt : (q : ReceiptRequest) (w : P.World) → I w → I (P.get_receipt q w).1
  pub by_clock : (w : P.World) → I w → I (P.monotonic w).1
  pub by_checkpoint : Calls on_checkpoint I
  pub by_event : Calls on_event I
  pub by_cancelled : Stops cancelled I

module _ {World : Type 0} (I : World → Type 0) where
  abbrev pub Kept : {A : Type 0} → Result Raised A × Session World → Type 0
  Kept r = Post (λ _ t. I t.world) (λ t. I t.world) r

  abbrev pub Holds : {A : Type 0} → Run World A → Type 0
  Holds m = (s : Session World) → I s.world → Kept (m s)

  result-Kept : {A : Type 0} (r : Result Raised A) (s : Session World) → I s.world → Kept (r, s)
  result-Kept (ok a) s i = returned a s i
  result-Kept (err e) s i = raised e s i

  pub call-Holds :
      {A : Type 0} (m : Call World A) → ((w : World) → I w → I (m w).1) → Holds (call m)
  call-Holds m h s i = result-Kept (m s.world).0 (record s { world = (m s.world).1 }) (h s.world i)

  wrapped-Kept :
      {A : Type 0} (r : Result Raised A × Session World) → Kept r → Kept (wrapped r.0, r.1)
  wrapped-Kept (ok a, t) p = returned a t p.left
  wrapped-Kept (err e, t) p = raised _ t p.left

  pub application_call-Holds : {A : Type 0} (m : Run World A) → Holds m → Holds (application_call m)
  unfolding application_call
  application_call-Holds m h s i = wrapped-Kept (m s) (h s i)

  save-Holds : (o : Option (Checkpoint → Call World (Unit {0}))) → Calls o I → Holds (save o)
  unfolding save
  save-Holds none h s i = returned tt s i
  save-Holds (some f) h s i = call-Holds (f s.task.checkpoint) (h s.task.checkpoint) s i

  pub stored_int-Holds : (text : String) → Holds (stored_int text)
  stored_int-Holds text s i = parses {Q = λ _ t. I t.world} text s (λ _ _. i) i

  pub protocol-Holds : (b : Bool) (message : String) → Holds (raise_protocol_if b message)
  protocol-Holds true message s i = raised _ s i
  protocol-Holds false message s i = returned tt s i

  pub refused-Holds : (o : Option DeixicError) → Holds (raise_if_refused o)
  refused-Holds none s i = returned tt s i
  refused-Holds (some e) s i = raised _ s i

cancels :
    (P : Platform) (on_checkpoint : Option (Checkpoint → Call P.World (Unit {0})))
    (on_event : Option (TaskEvent → Call P.World (Unit {0}))) (I : P.World → Type 0)
    (o : Option (Call P.World Bool)) (max_pages deadline max_reconnects : ℕ)
    → Stops o I
    → Holds I (is_cancelled P on_checkpoint on_event o max_pages deadline max_reconnects)
unfolding is_cancelled
cancels P on_checkpoint on_event I none max_pages deadline max_reconnects h s i = returned false s i
cancels P on_checkpoint on_event I (some f) max_pages deadline max_reconnects h s i =
    call-Holds I f h s i

notifies :
    (P : Platform) (on_checkpoint : Option (Checkpoint → Call P.World (Unit {0})))
    (I : P.World → Type 0) (o : Option (TaskEvent → Call P.World (Unit {0}))) (e : TaskEvent)
    → Calls o I
    → Holds I (notify P on_checkpoint o e)
unfolding notify
notifies P on_checkpoint I none e h s i = returned tt s i
notifies P on_checkpoint I (some f) e h s i =
    application_call-Holds I (call (f e)) (call-Holds I (f e) (h e)) s i

module _ (P : Platform) (on_checkpoint : Option (Checkpoint → Call P.World (Unit {0})))
    (on_event : Option (TaskEvent → Call P.World (Unit {0})))
    (cancelled : Option (Call P.World Bool)) (I : P.World → Type 0)
    (steady : Steady P on_checkpoint on_event cancelled I) where
  pub remaining-Holds : (deadline : Option ℕ) → Holds I (remaining P deadline)
  unfolding remaining
  remaining-Holds none s i = returned none s i
  remaining-Holds (some deadline) s i = elim (Bool-cases (leb deadline (P.monotonic s.world).0)) [
    | inl over ↦
        rw over
          (raised _ (record s { world = (P.monotonic s.world).1 }) (steady.by_clock s.world i))
    | inr left ↦
        rw left
          (returned _ (record s { world = (P.monotonic s.world).1 }) (steady.by_clock s.world i))
  ]

  pub is_cancelled-Holds :
      (max_pages deadline max_reconnects : ℕ)
      → Holds I (is_cancelled P on_checkpoint on_event cancelled max_pages deadline max_reconnects)
  is_cancelled-Holds max_pages deadline max_reconnects =
      cancels P on_checkpoint on_event I cancelled max_pages deadline max_reconnects
        steady.by_cancelled

  notify-Holds : (e : TaskEvent) → Holds I (notify P on_checkpoint on_event e)
  notify-Holds e = notifies P on_checkpoint I on_event e steady.by_event

  deliver-Holds :
      (turn_id : String) (cursor : ℤ) (seen : List ℤ) (es : List TaskEvent)
      → Holds I (deliver P on_checkpoint on_event turn_id cursor seen es)
  unfolding deliver
  deliver-Holds turn_id cursor seen [] s i = returned tt s i
  deliver-Holds turn_id cursor seen (e ∷ es) s i =
      elim (Bool-cases (is_skipped turn_id cursor seen e)) [
        | inl skipped ↦ rw skipped (deliver-Holds turn_id cursor seen es s i)
        | inr given ↦ rw given (
            Post-bind (notify P on_checkpoint on_event e) _ s (notify-Holds e s i) λ _ t _ j.
              deliver-Holds turn_id cursor (e.cursor ∷ seen) es
                (record t { task = record t.task { event = some e } }) j)
      ]

  consume-Holds :
      (page : EventPage) (cursor : ℤ) → Holds I (consume P on_checkpoint on_event page cursor)
  unfolding consume
  consume-Holds page cursor s i =
      Post-bind (raise_if_refused (page_refusal P.serialize page cursor)) _ s
        (refused-Holds I (page_refusal P.serialize page cursor) s i)
        λ _ t _ j.
          Post-bind
            (deliver P on_checkpoint on_event t.task.checkpoint.turn_id cursor []
              (sort_events page.events))
            _ t (deliver-Holds t.task.checkpoint.turn_id cursor [] (sort_events page.events) t j)
            λ _ u _ k.
              application_call-Holds I (save on_checkpoint)
                (save-Holds I on_checkpoint steady.by_checkpoint) _ k

  reset-Holds :
      (snapshot : Option ℤ) (cursor : ℤ) → Holds I (reset P on_checkpoint on_event snapshot cursor)
  unfolding reset
  reset-Holds none cursor s i = raised _ s i
  reset-Holds (some replay) cursor s i = elim (Bool-cases (ltb_ℤ replay cursor)) [
    | inl back ↦ rw back (raised _ s i)
    | inr forth ↦ rw forth (
        application_call-Holds I (save on_checkpoint)
          (save-Holds I on_checkpoint steady.by_checkpoint) _ i)
  ]

  next_page-Holds : (deadline : Option ℕ) → Holds I (next_page P on_checkpoint on_event deadline)
  unfolding next_page
  next_page-Holds deadline s i =
      Post-bind (stored_int s.task.checkpoint.cursor) _ s
        (stored_int-Holds I s.task.checkpoint.cursor s i)
        λ cursor t _ j.
          Post-bind (remaining P deadline) _ t (remaining-Holds deadline t j) λ timeout u _ k.
            Post-bind (call (P.list_events _)) _ u
              (call-Holds I (P.list_events _) (steady.by_events _) u k) λ page v _ l. returned _ v l

  pub backfill-Holds :
      (pages : ℕ) (deadline : Option ℕ) → Holds I (backfill P on_checkpoint on_event pages deadline)
  unfolding backfill
  backfill-Holds zero deadline s i = returned false s i
  backfill-Holds (suc pages) deadline s i =
      Post-bind (next_page P on_checkpoint on_event deadline) _ s (next_page-Holds deadline s i)
        λ (page, cursor) t _ j. elim (Bool-cases page.reset_required) [
          | inl back ↦ rw back (
              Post-bind (reset P on_checkpoint on_event page.snapshot cursor) _ t
                (reset-Holds page.snapshot cursor t j) λ _ u _ k. returned true u k)
          | inr forth ↦ rw forth (
              Post-bind (consume P on_checkpoint on_event page cursor) _ t
                (consume-Holds page cursor t j)
                λ _ u _ k. elim (Bool-cases page.has_more) [
                  | inl more ↦ rw more (backfill-Holds pages deadline u k)
                  | inr done ↦ rw done (returned true u k)
                ])
        ]
