-- ===== src/Tasks/Pages/Accepted.antt =====
-- What holds of a page of events that `_validate_page` lets through.
use deixic_python.Base.{ℕ, true, ◌≡◌, none, List, [], ◌∷◌, All, arith}
use deixic_python.Base.Int.{ℤ, pos, ◌≤ℤ◌, ◌<ℤ◌, ==ℤ_iff, max_ℤ, le-max_ℤ_left, le-max_ℤ_right}
use deixic_python.Tasks.Types.{TaskEvent, EventPage}
use deixic_python.Tasks.Pages.{watermark, Records, event_refusal, page_refusal}

watermark-ge : (cursor : ℤ) (es : List TaskEvent) → cursor ≤ℤ watermark cursor es
unfolding watermark
watermark-ge cursor [] = omega arith
watermark-ge cursor (e ∷ es) =
    omega (arith, watermark-ge (max_ℤ cursor e.cursor) es, le-max_ℤ_left cursor e.cursor)

All-mono {ℓ κ μ} :
    {A : Type ℓ} {P : A → Type κ} {Q : A → Type μ}
    → ((a : A) → P a → Q a)
    → (xs : List A) → All P xs
    → All Q xs
All-mono f [] ps = tt
All-mono f (x ∷ xs) (p, ps) = (f x p, All-mono f xs ps)

watermark-bounds :
    (cursor : ℤ) (es : List TaskEvent) → All (λ e. e.cursor ≤ℤ watermark cursor es) es
unfolding watermark
watermark-bounds cursor [] = tt
watermark-bounds cursor (e ∷ es) = (
  omega (arith, watermark-ge (max_ℤ cursor e.cursor) es, le-max_ℤ_right cursor e.cursor),
  watermark-bounds (max_ℤ cursor e.cursor) es,
)

module _ (serialize : TaskEvent → List ℕ) where
  event_refusal-positive :
      (records : Records) (es : List TaskEvent)
      → event_refusal serialize records es ≡ none
      → All (λ e. pos 0 <ℤ e.cursor) es
  unfolding event_refusal
  event_refusal-positive records [] h = tt
  event_refusal-positive records (e ∷ es) h =
      (ground arith, event_refusal-positive ((e.cursor, serialize e) ∷ records) es (ground arith))

  -- A page that the source accepts.
  pub record IsSound (page : EventPage) (cursor : ℤ) : Type 0 where
    pub onward : cursor ≤ℤ page.next_cursor
    pub positive : All (λ e. pos 0 <ℤ e.cursor) page.events
    pub bounded : All (λ e. e.cursor ≤ℤ page.next_cursor) page.events
    pub progress : page.has_more ≡ true → cursor <ℤ page.next_cursor

  page_refusal-inv :
      (page : EventPage) (cursor : ℤ)
      → page_refusal serialize page cursor ≡ none
      → (page.next_cursor ≡ watermark cursor page.events)
        × (page.has_more ≡ true → cursor <ℤ watermark cursor page.events)
        × (event_refusal serialize [] page.events ≡ none)
  unfolding page_refusal
  page_refusal-inv page cursor h = (
    ground (arith, ==ℤ_iff page.next_cursor (watermark cursor page.events)),
    λ m. ground arith,
    ground arith,
  )

  -- A page of events that is accepted behind a cursor does not go back: its next cursor is at least
  -- this one, and beyond it where more pages are promised, so that reading the pages makes progress;
  -- the cursors of its events are positive and at most the next cursor.
  pub page_refusal-IsSound :
      (page : EventPage) (cursor : ℤ)
      → page_refusal serialize page cursor ≡ none
      → IsSound page cursor
  page_refusal-IsSound page cursor h =
      let (next, more, clear) = page_refusal-inv page cursor h in
      record {
        onward = rw next (watermark-ge cursor page.events);
        positive = event_refusal-positive [] page.events clear;
        bounded = rw next (watermark-bounds cursor page.events);
        progress = λ m. rw next (more m);
      }
