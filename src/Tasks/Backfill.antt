-- ===== src/Tasks/Backfill.antt =====
-- `Task._backfill` and `Task._waiting_request`: reading the owner's events.
pub mod Progress
use deixic_python.Base.{
  ℕ, zero, suc, String, Bool, true, false, not, ◌||◌, ◌&&◌, Option, none, some, List, [], ◌∷◌, any,
  text_eq, truthy, if◌then◌else◌, Result, ok, err, pure, raise, gets, ◌>>=◌, ◌>>◌,
}
use deixic_python.Base.Int.{ℤ, pos, leb_ℤ, ltb_ℤ, ◌==ℤ◌, max_ℤ, pred_ℤ}
use deixic_python.Base.Decimal.{str}
use deixic_python.Errors.{DeixicError, plain_error, Kind, protocol}
use deixic_python.Tasks.Types.{
  Checkpoint, TaskEvent, TaskTurn, EventPage, WaitingReason, RequestKind, Raised, deixic,
}
use deixic_python.Tasks.Pages.{page_refusal, sort_events}
use deixic_python.Tasks.Platform.{
  Platform, EventsRequest, Call, Session, Run, call, set_checkpoint, set_event, checked, stored_int,
  application_call, save, remaining,
}

abbrev pub cursor_in : ℤ → List ℤ → Bool
cursor_in c seen = any (λ d. c ==ℤ d) seen

-- The events that the loop passes over.
unfoldable pub is_skipped : String → ℤ → List ℤ → TaskEvent → Bool
unfolding any
is_skipped turn_id cursor seen e =
    not (text_eq e.turn_id turn_id) || leb_ℤ e.cursor cursor || cursor_in e.cursor seen

abbrev pub raise_if_refused : {World : Type 0} → Option DeixicError → Run World (Unit {0})
raise_if_refused none s = (ok tt, s)
raise_if_refused (some e) s = (err (deixic e), s)

abbrev pub advance : ℤ → Checkpoint → Checkpoint
advance n c = record c { cursor = str n }

-- `expected_type`, and its comparison with the kind of a request
abbrev pub matches_reason : WaitingReason → RequestKind → Bool
matches_reason WaitingReason.approval RequestKind.approval = true
matches_reason WaitingReason.user_input RequestKind.user_input = true
matches_reason WaitingReason.client_tool RequestKind.client_tool = true
matches_reason WaitingReason.external_retry RequestKind.external_retry = true
matches_reason _ _ = false

-- The last event of the turn past the cursor that holds a request.
unfoldable pub latest_request : String → ℤ → Option TaskEvent → List TaskEvent → Option TaskEvent
latest_request turn_id cursor request [] = request
latest_request turn_id cursor request (e ∷ es) =
    latest_request turn_id cursor
      (if text_eq e.turn_id turn_id && ltb_ℤ cursor e.cursor && truthy e.request_id
        then some e
        else request)
      es

unfoldable pub fitting_request : WaitingReason → Option TaskEvent → Option TaskEvent
fitting_request reason none = none
fitting_request reason (some e) = if matches_reason reason e.request_kind then some e else none

module _ (P : Platform) (on_checkpoint : Option (Checkpoint → Call P.World (Unit {0})))
    (on_event : Option (TaskEvent → Call P.World (Unit {0}))) where
  -- `if on_event: _application_call(on_event, …)`
  unfoldable pub notify : TaskEvent → Run P.World (Unit {0})
  unfolding application_call
  notify e s = elim on_event [ none ↦ (ok tt, s) | some f ↦ application_call (call (f e)) s ]

  -- The loop over the sorted events of a page.
  unfoldable pub deliver : String → ℤ → List ℤ → List TaskEvent → Run P.World (Unit {0})
  deliver turn_id cursor seen [] = pure tt
  deliver turn_id cursor seen (e ∷ es) =
      let skipped = deliver turn_id cursor seen es in
      let delivered = do notify e; set_event (some e); deliver turn_id cursor (e.cursor ∷ seen) es
      in if is_skipped turn_id cursor seen e then skipped else delivered

  -- A page without a reset: the events, the cursor and the save.
  unfoldable pub consume : EventPage → ℤ → Run P.World (Unit {0})
  consume page cursor = do
    raise_if_refused (page_refusal P.serialize page cursor)
    turn_id ← gets (λ s. s.task.checkpoint.turn_id)
    deliver turn_id cursor [] (sort_events page.events)
    set_checkpoint (advance page.next_cursor)
    application_call (save on_checkpoint)

  -- The retention reset, to the owner's snapshot.
  unfoldable pub reset : Option ℤ → ℤ → Run P.World (Unit {0})
  reset none cursor =
      raise (deixic (plain_error "Retention reset omitted a valid owner execution cursor" protocol))
  reset (some replay_cursor) cursor =
      if ltb_ℤ replay_cursor cursor
      then raise
          (deixic (plain_error "Retention reset omitted a valid owner execution cursor" protocol))
      else (do
        set_event none
        set_checkpoint (advance replay_cursor)
        application_call (save on_checkpoint))

  -- One page of `events.list`.
  unfoldable pub next_page : Option ℕ → Run P.World (EventPage × ℤ)
  next_page deadline = do
    c ← gets (λ s. s.task.checkpoint)
    cursor ← stored_int c.cursor
    timeout ← remaining P deadline
    page ← call (
        P.list_events
          (record { channel_id = c.channel_id; after_cursor = cursor; timeout = timeout }))
    pure (page, cursor)

  -- `_backfill`: true where the events have been read to their end, or the owner has reset them, and
  -- false where the bound on the pages is met.
  unfoldable pub backfill : ℕ → Option ℕ → Run P.World Bool
  backfill zero deadline = pure false
  backfill (suc pages) deadline =
      let more = backfill pages deadline in
      do
        (page, cursor) ← next_page deadline
        elim page.reset_required [
          | true ↦ do reset page.snapshot cursor; pure true
          | false ↦ do consume page cursor; elim page.has_more [ true ↦ more | false ↦ pure true ]
        ]

  -- The loop of `_waiting_request`.
  unfoldable pub find_request :
      ℕ → Option ℕ → TaskTurn → ℤ → Option TaskEvent → Run P.World (Option TaskEvent)
  find_request zero deadline turn cursor request = pure none
  find_request (suc pages) deadline turn cursor request = do
    c ← gets (λ s. s.task.checkpoint)
    timeout ← remaining P deadline
    page ← call (
        P.list_events
          (record { channel_id = c.channel_id; after_cursor = cursor; timeout = timeout }))
    elim page.reset_required [
      | true ↦ pure none
      | false ↦ do
        raise_if_refused (page_refusal P.serialize page cursor)
        let latest = latest_request turn.turn_id cursor request (sort_events page.events)
        elim page.has_more [
          | true ↦ find_request pages deadline turn page.next_cursor latest
          | false ↦ pure (fitting_request turn.waiting_reason latest)
        ]
    ]

  -- `_waiting_request`
  unfoldable pub waiting_request : ℕ → Option ℕ → TaskTurn → Run P.World (Option TaskEvent)
  waiting_request pages deadline turn =
      find_request pages deadline turn (max_ℤ (pos 0) (pred_ℤ turn.first_cursor)) none
