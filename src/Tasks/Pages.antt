-- ===== src/Tasks/Pages.antt =====
-- `_validate_page`, and the order in which a page's events are read.
pub mod Accepted
use deixic_python.Base.{
  ℕ, String, Bool, true, false, not, ◌||◌, ◌&&◌, Option, none, some, List, [], ◌∷◌, if◌then◌else◌,
  map,
}
use deixic_python.Base.Text.{codes_dec}
use deixic_python.Base.{ite}
use deixic_python.Base.Int.{ℤ, pos, leb_ℤ, ◌==ℤ◌, max_ℤ}
use deixic_python.Errors.{DeixicError, plain_error, Kind, protocol}
use deixic_python.Tasks.Types.{TaskEvent, EventPage}

-- `max([cursor] + [event.cursor for event in events])`
unfoldable pub watermark : ℤ → List TaskEvent → ℤ
unfolding max_ℤ
watermark cursor [] = cursor
watermark cursor (e ∷ es) = watermark (max_ℤ cursor e.cursor) es

abbrev pub same_bytes : List ℕ → List ℕ → Bool
same_bytes xs ys = ite (codes_dec xs ys) true false

abbrev pub Records : Type 0
Records = List (ℤ × List ℕ)

-- `event.cursor in records and records[event.cursor] != encoded`
unfoldable pub conflicts : ℤ → List ℕ → Records → Bool
conflicts cursor encoded [] = false
conflicts cursor encoded ((c, old) ∷ records) =
    if c ==ℤ cursor then not (same_bytes old encoded) else conflicts cursor encoded records

module _ (serialize : TaskEvent → List ℕ) where
  -- The loop over the events, none where it raises nothing.
  unfoldable pub event_refusal : Records → List TaskEvent → Option DeixicError
  unfolding conflicts
  event_refusal records [] = none
  event_refusal records (e ∷ es) =
      let rest = event_refusal ((e.cursor, serialize e) ∷ records) es in
      if leb_ℤ e.cursor (pos 0)
      then some (plain_error "Event cursor must be positive" protocol)
      else if conflicts e.cursor (serialize e) records
      then some (plain_error "Different events reused the same cursor" protocol)
      else rest

  -- `_validate_page`
  unfoldable pub page_refusal : EventPage → ℤ → Option DeixicError
  page_refusal page cursor =
      let expected = watermark cursor page.events in
      if not (page.next_cursor ==ℤ expected) || (page.has_more && leb_ℤ expected cursor)
      then some (plain_error "Event pagination returned an invalid watermark" protocol)
      else event_refusal [] page.events

-- `sorted(page.events, key=lambda item: item.cursor)`, which keeps the order of equal cursors
unfoldable pub insert_event : TaskEvent → List TaskEvent → List TaskEvent
insert_event e [] = e ∷ []
insert_event e (f ∷ fs) = if leb_ℤ e.cursor f.cursor then e ∷ f ∷ fs else f ∷ insert_event e fs

unfoldable pub sort_events : List TaskEvent → List TaskEvent
unfolding insert_event
sort_events [] = []
sort_events (e ∷ es) = insert_event e (sort_events es)
