-- ===== src/Tasks/Result/Reads.antt =====
-- Reading pages of the thread, events and receipts changes nothing of the handle, and the turn that is
-- found is the accepted one.
use deixic_python.Base.{
  ℕ, zero, suc, String, true, false, not, ◌||◌, ◌≡◌, refl, sym, ap, ◌∙◌, All, inl, inr, Option,
  none, some, List, [], ◌∷◌, map, text_eq, is_empty, Bool-cases, arith,
}
use deixic_python.Base.Text.{text_eq_iff}
use deixic_python.Base.Int.{ℤ, ==ℤ_iff}
use deixic_python.Base.Post.{Post, returned, Post-bind}
use deixic_python.Tasks.Types.{
  Checkpoint, TaskEvent, TaskTurn, TurnState, TaskMessage, Receipt, Status,
}
use deixic_python.Tasks.Platform.{
  Platform, Call, TaskState, Session, call, raise_protocol_if, remaining,
}
use deixic_python.Tasks.Platform.Steps.{called, raises_if, remains}
use deixic_python.Tasks.Pages.{page_refusal}
use deixic_python.Tasks.Backfill.{raise_if_refused, find_request}
use deixic_python.Tasks.Backfill.Progress.{refuses}
use deixic_python.Tasks.Result.Served.{IsServed, HasReceipt, ReadScan, ReadSome, add_page-ReadScan}
use deixic_python.Tasks.Result.{
  find_turn, find_message, is_renumbered, first_of, is_completed, is_enough, status_of, Scan,
  add_page, next_token, thread_page, scan_thread, read_receipts,
}

-- A turn, where there is one, is the one with the identity and the sequence.
abbrev pub Fits : String → ℤ → Option TaskTurn → Type 0
Fits turn_id sequence none = Unit
Fits turn_id sequence (some t) = (t.turn_id ≡ turn_id) × (t.sequence ≡ sequence)

abbrev pub FitsScan : String → ℤ → Option Scan → Type 0
FitsScan turn_id sequence none = Unit
FitsScan turn_id sequence (some scan) = Fits turn_id sequence scan.turn

find_turn-id :
    (turn_id : String) (ts : List TaskTurn) (t : TaskTurn)
    → find_turn turn_id ts ≡ some t
    → t.turn_id ≡ turn_id
unfolding find_turn
find_turn-id turn_id [] t h = cc
find_turn-id turn_id (u ∷ ts) t h =
    ground (arith, find_turn-id turn_id ts t, text_eq_iff u.turn_id turn_id)

unrenumbered-Fits :
    (turn_id : String) (sequence : ℤ) (o : Option TaskTurn)
    → ((t : TaskTurn) → o ≡ some t → t.turn_id ≡ turn_id)
    → is_renumbered sequence o ≡ false
    → Fits turn_id sequence o
unrenumbered-Fits turn_id sequence none f h = tt
unrenumbered-Fits turn_id sequence (some t) f h =
    (f t refl, ground (arith, ==ℤ_iff t.sequence sequence))

first_of-Fits :
    (turn_id : String) (sequence : ℤ) (a b : Option TaskTurn)
    → Fits turn_id sequence a
    → Fits turn_id sequence b
    → Fits turn_id sequence (first_of a b)
first_of-Fits turn_id sequence none b p q = q
first_of-Fits turn_id sequence (some t) b p q = p

pub same_text : (a b : String) → not (text_eq a b) ≡ false → a ≡ b
same_text a b h = ground (arith, text_eq_iff a b)

pub completed-state : (z : TurnState) → status_of z ≡ Status.completed → is_completed z ≡ true
completed-state z h = ground arith

pub find_message-id :
    (id : String) (ms : List TaskMessage) (m : TaskMessage)
    → find_message id ms ≡ some m
    → m.id ≡ id
unfolding find_message
find_message-id id [] m h = cc
find_message-id id (n ∷ ms) m h = ground (arith, find_message-id id ms m, text_eq_iff n.id id)

module _ (P : Platform) (on_checkpoint : Option (Checkpoint → Call P.World (Unit {0})))
    (on_event : Option (TaskEvent → Call P.World (Unit {0}))) (k : TaskState) where
  -- The handle is as it was.
  abbrev pub Kept : Session P.World → Type 0
  Kept s = s.task ≡ k

  pub find_request-Kept :
      (pages : ℕ) (deadline : Option ℕ) (turn : TaskTurn) (cursor : ℤ) (request : Option TaskEvent)
      (s : Session P.World)
      → Kept s
      → Post
          (λ _. Kept)
          Kept
          (find_request P on_checkpoint on_event pages deadline turn cursor request s)
  unfolding find_request
  find_request-Kept zero deadline turn cursor request s h = returned none s h
  find_request-Kept (suc pages) deadline turn cursor request s h =
      Post-bind (remaining P deadline) _ s
        (remains P {Q = λ _. Kept} deadline s (λ _ w. h) (λ w. h))
        λ left t _ g.
          Post-bind
            (call (
              P.list_events (record {
                channel_id = s.task.checkpoint.channel_id;
                after_cursor = cursor;
                timeout = left;
              })))
            _ t
            (called {Q = λ _. Kept}
              (P.list_events (record {
                channel_id = s.task.checkpoint.channel_id;
                after_cursor = cursor;
                timeout = left;
              }))
              t (λ _ w _. g) (λ w. g))
            λ page u _ l. elim (Bool-cases page.reset_required) [
              | inl renewed ↦ rw renewed (returned none u l)
              | inr kept ↦ rw kept (
                  Post-bind (raise_if_refused (page_refusal P.serialize page cursor)) _ u
                    (refuses {Q = λ _. Kept} _ u (λ _. l) l)
                    λ _ v _ m. elim (Bool-cases page.has_more) [
                      | inl more ↦
                          rw more (find_request-Kept pages deadline turn page.next_cursor _ v m)
                      | inr last ↦ rw last (returned _ v m)
                    ])
            ]

  pub read_receipts-Post :
      (deadline : Option ℕ) (ids : List String) (s : Session P.World)
      → Kept s
      → Post
          (λ rs t.
            Kept t
            × (map (λ (x : Receipt). x.id) rs ≡ ids)
            × All (HasReceipt P k.checkpoint.channel_id) rs)
          Kept
          (read_receipts P on_checkpoint on_event deadline ids s)
  unfolding read_receipts
  read_receipts-Post deadline [] s h = returned [] s (h, refl, tt)
  read_receipts-Post deadline (id ∷ ids) s h =
      Post-bind (remaining P deadline) _ s
        (remains P {Q = λ _. Kept} deadline s (λ _ w. h) (λ w. h))
        λ left t _ g.
          Post-bind
            (call (
              P.get_receipt (record {
                channel_id = s.task.checkpoint.channel_id;
                receipt_id = id;
                timeout = left;
              })))
            _ t
            (called
              {Q = λ receipt u.
                Kept u × (receipt.id ≡ id → HasReceipt P k.checkpoint.channel_id receipt)}
              (P.get_receipt (record {
                channel_id = s.task.checkpoint.channel_id;
                receipt_id = id;
                timeout = left;
              }))
              t
              (λ receipt w e.
                (g, λ same. (_, t.world, w, ap (λ j. j.checkpoint.channel_id) h, sym same, e)))
              (λ w. g))
            λ receipt u _ (l, given).
              Post-bind (raise_protocol_if _ _) _ u
                (raises_if {Q = λ _ v. Kept v × (receipt.id ≡ id)} _ _ u
                  (λ same. (l, same_text receipt.id id same)) l)
                λ _ v _ (m, same).
                  Post-bind (read_receipts P on_checkpoint on_event deadline ids) _ v
                    (read_receipts-Post deadline ids v m)
                    λ rs w _ (n, rest, others).
                      returned (receipt ∷ rs) w (n, λ i. same i ∷ rest i, (given same, others))

  thread_page-Post :
      (deadline : Option ℕ) (turn_id : String) (sequence : ℤ) (scan : Scan) (s : Session P.World)
      → Kept s
      → Post
          (λ page t.
            Kept t
            × Fits turn_id sequence (find_turn turn_id page.turns)
            × IsServed P k.checkpoint.channel_id page)
          Kept
          (thread_page P on_checkpoint on_event deadline turn_id sequence scan s)
  unfolding thread_page
  thread_page-Post deadline turn_id sequence scan s h =
      Post-bind (remaining P deadline) _ s
        (remains P {Q = λ _. Kept} deadline s (λ _ w. h) (λ w. h))
        λ left t _ g.
          Post-bind
            (call (
              P.get_thread (record {
                channel_id = s.task.checkpoint.channel_id;
                limit = 200;
                page_token = scan.page_token;
                timeout = left;
              })))
            _ t
            (called
              {Q = λ page u.
                Kept u
                × (page.thread_id ≡ k.checkpoint.channel_id
                    → IsServed P k.checkpoint.channel_id page)}
              (P.get_thread (record {
                channel_id = s.task.checkpoint.channel_id;
                limit = 200;
                page_token = scan.page_token;
                timeout = left;
              }))
              t
              (λ page w e.
                (g, λ same. (_, t.world, w, ap (λ j. j.checkpoint.channel_id) h, e, same)))
              (λ w. g))
            λ page u _ (l, given).
              Post-bind
                (raise_protocol_if (not (text_eq page.thread_id s.task.checkpoint.channel_id))
                  "Thread lookup changed the channel identity")
                _ u
                (raises_if {Q = λ _ v. Kept v × (page.thread_id ≡ s.task.checkpoint.channel_id)} _ _
                  u (λ same. (l, same_text page.thread_id s.task.checkpoint.channel_id same)) l)
                λ _ v _ (m, own).
                  Post-bind
                    (raise_protocol_if (is_renumbered sequence (find_turn turn_id page.turns))
                      "Thread lookup changed the accepted turn sequence")
                    _ v
                    (raises_if
                      {Q = λ _ x.
                        Kept x × (is_renumbered sequence (find_turn turn_id page.turns) ≡ false)}
                      _ _ v (λ same. (m, same)) m)
                    λ _ w _ (n, same). returned page w (
                      n,
                      unrenumbered-Fits turn_id sequence _ (find_turn-id turn_id page.turns) same,
                      given (own ∙ ap (λ j. j.checkpoint.channel_id) h),
                    )

  pub scan_thread-Post :
      (pages : ℕ) (deadline : Option ℕ) (turn_id : String) (sequence : ℤ) (scan : Scan)
      (s : Session P.World)
      → Fits turn_id sequence scan.turn
      → ReadScan P k.checkpoint.channel_id scan
      → Kept s
      → Post
          (λ o t. Kept t × FitsScan turn_id sequence o × ReadSome P k.checkpoint.channel_id o)
          Kept
          (scan_thread P on_checkpoint on_event pages deadline turn_id sequence scan s)
  unfolding scan_thread
  scan_thread-Post zero deadline turn_id sequence scan s f known h = returned none s (h, tt, tt)
  scan_thread-Post (suc pages) deadline turn_id sequence scan s f read h =
      Post-bind (thread_page P on_checkpoint on_event deadline turn_id sequence scan) _ s
        (thread_page-Post deadline turn_id sequence scan s h)
        λ page t _ (g, candidate, served).
          let known = add_page turn_id page scan in
          let fits = first_of-Fits turn_id sequence scan.turn _ f candidate in
          let shown = add_page-ReadScan P k.checkpoint.channel_id turn_id page scan served read in
          elim (Bool-cases (is_enough known.turn known.messages || is_empty page.next_page_token)) [
            | inl enough ↦ rw enough (returned (some known) t (g, fits, shown))
            | inr more ↦ rw more (
                Post-bind (raise_protocol_if _ _) _ t (raises_if {Q = λ _. Kept} _ _ t (λ _. g) g)
                  λ _ u _ l.
                    scan_thread-Post pages deadline turn_id sequence
                      (next_token page.next_page_token known) u fits shown l)
          ]
