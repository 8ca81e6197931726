-- ===== src/Tasks/Wait/Loop/Reading.antt =====
-- A property of the world that every call keeps is kept by the reading of a result.
use deixic_python.Base.{
  ℕ, zero, suc, String, Bool, not, ◌||◌, Option, none, some, List, [], ◌∷◌, any, inl, inr,
  Bool-cases, text_eq, is_empty,
}
use deixic_python.Base.Int.{ℤ}
use deixic_python.Base.Post.{returned, raised, Post-bind}
use deixic_python.Tasks.Types.{Checkpoint, Submission, TaskEvent, TaskTurn, TaskMessage, Status}
use deixic_python.Tasks.Pages.{page_refusal}
use deixic_python.Tasks.Platform.{Platform, Call, call, raise_protocol_if, stored_int, remaining}
use deixic_python.Tasks.Backfill.{raise_if_refused, find_request, waiting_request}
use deixic_python.Tasks.Result.{
  Scan, distinct, linked, thread_page, scan_thread, read_receipts, completed_result, status_result,
  found_result, scanned_result, observed, submission_result, result_from, find_message, find_turn,
  is_renumbered, is_enough, status_of, next_token, add_page,
}
use deixic_python.Tasks.Wait.Loop.Keeps.{
  Steady, Holds, call-Holds, stored_int-Holds, protocol-Holds, refused-Holds, remaining-Holds,
}

module _ (P : Platform) (on_checkpoint : Option (Checkpoint → Call P.World (Unit {0})))
    (on_event : Option (TaskEvent → Call P.World (Unit {0})))
    (cancelled : Option (Call P.World Bool)) (I : P.World → Type 0)
    (steady : Steady P on_checkpoint on_event cancelled I) where
  left-Holds : (deadline : Option ℕ) → Holds I (remaining P deadline)
  left-Holds = remaining-Holds P on_checkpoint on_event cancelled I steady

  find_request-Holds :
      (pages : ℕ) (deadline : Option ℕ) (turn : TaskTurn) (cursor : ℤ) (request : Option TaskEvent)
      → Holds I (find_request P on_checkpoint on_event pages deadline turn cursor request)
  unfolding find_request
  find_request-Holds zero deadline turn cursor request s i = returned none s i
  find_request-Holds (suc pages) deadline turn cursor request s i =
      Post-bind (remaining P deadline) _ s (left-Holds deadline s i) λ timeout t _ j.
        Post-bind (call (P.list_events _)) _ t
          (call-Holds I (P.list_events _) (steady.by_events _) t j)
          λ page u _ k. elim (Bool-cases page.reset_required) [
            | inl back ↦ rw back (returned none u k)
            | inr forth ↦ rw forth (
                Post-bind (raise_if_refused (page_refusal P.serialize page cursor)) _ u
                  (refused-Holds I (page_refusal P.serialize page cursor) u k)
                  λ _ v _ l. elim (Bool-cases page.has_more) [
                    | inl more ↦
                        rw more (find_request-Holds pages deadline turn page.next_cursor _ v l)
                    | inr done ↦ rw done (returned _ v l)
                  ])
          ]

  thread_page-Holds :
      (deadline : Option ℕ) (turn_id : String) (sequence : ℤ) (scan : Scan)
      → Holds I (thread_page P on_checkpoint on_event deadline turn_id sequence scan)
  unfolding thread_page
  thread_page-Holds deadline turn_id sequence scan s i =
      Post-bind (remaining P deadline) _ s (left-Holds deadline s i) λ timeout t _ j.
        Post-bind (call (P.get_thread _)) _ t
          (call-Holds I (P.get_thread _) (steady.by_thread _) t j)
          λ page u _ k.
            Post-bind (raise_protocol_if _ _) _ u
              (protocol-Holds I (not (text_eq page.thread_id s.task.checkpoint.channel_id))
                "Thread lookup changed the channel identity" u k)
              λ _ v _ l.
                Post-bind (raise_protocol_if _ _) _ v
                  (protocol-Holds I (is_renumbered sequence (find_turn turn_id page.turns))
                    "Thread lookup changed the accepted turn sequence" v l)
                  λ _ w _ m. returned page w m

  scan_thread-Holds :
      (pages : ℕ) (deadline : Option ℕ) (turn_id : String) (sequence : ℤ) (scan : Scan)
      → Holds I (scan_thread P on_checkpoint on_event pages deadline turn_id sequence scan)
  unfolding scan_thread
  scan_thread-Holds zero deadline turn_id sequence scan s i = returned none s i
  scan_thread-Holds (suc pages) deadline turn_id sequence scan s i =
      Post-bind (thread_page P on_checkpoint on_event deadline turn_id sequence scan) _ s
        (thread_page-Holds deadline turn_id sequence scan s i)
        λ page t _ j.
          let known = add_page turn_id page scan in
          elim (Bool-cases (is_enough known.turn known.messages || is_empty page.next_page_token)) [
            | inl done ↦ rw done (returned _ t j)
            | inr more ↦ rw more (
                Post-bind (raise_protocol_if _ _) _ t
                  (protocol-Holds I (any (text_eq page.next_page_token) known.seen)
                    "Thread pagination repeated a page token" t j)
                  λ _ u _ k.
                    scan_thread-Holds pages deadline turn_id sequence
                      (next_token page.next_page_token known) u k)
          ]

  read_receipts-Holds :
      (deadline : Option ℕ) (ids : List String)
      → Holds I (read_receipts P on_checkpoint on_event deadline ids)
  unfolding read_receipts
  read_receipts-Holds deadline [] s i = returned [] s i
  read_receipts-Holds deadline (id ∷ ids) s i =
      Post-bind (remaining P deadline) _ s (left-Holds deadline s i) λ timeout t _ j.
        Post-bind (call (P.get_receipt _)) _ t
          (call-Holds I (P.get_receipt _) (steady.by_receipt _) t j)
          λ receipt u _ k.
            Post-bind (raise_protocol_if _ _) _ u
              (protocol-Holds I (not (text_eq receipt.id id))
                "Receipt lookup changed the receipt identity" u k)
              λ _ v _ l.
                Post-bind (read_receipts P on_checkpoint on_event deadline ids) _ v
                  (read_receipts-Holds deadline ids v l) λ rest w _ m. returned (receipt ∷ rest) w m

  completed_result-Holds :
      (deadline : Option ℕ) (turn_id : String) (turn : TaskTurn) (message : Option TaskMessage)
      → Holds I (completed_result P on_checkpoint on_event deadline turn_id turn message)
  unfolding completed_result
  completed_result-Holds deadline turn_id turn none s i = raised _ s i
  completed_result-Holds deadline turn_id turn (some m) s i =
      Post-bind (read_receipts P on_checkpoint on_event deadline (distinct m.receipt_ids)) _ s
        (read_receipts-Holds deadline (distinct m.receipt_ids) s i) λ receipts t _ j. returned _ t j

  status_result-Holds :
      (pages : ℕ) (deadline : Option ℕ) (turn_id : String) (turn : TaskTurn)
      (messages : List TaskMessage) (status : Status)
      → Holds I (status_result P on_checkpoint on_event pages deadline turn_id turn messages status)
  unfolding status_result waiting_request
  status_result-Holds pages deadline turn_id turn messages Status.waiting s i =
      Post-bind (find_request P on_checkpoint on_event pages deadline turn _ none) _ s
        (find_request-Holds pages deadline turn _ none s i) λ event t _ j. returned _ t j
  status_result-Holds pages deadline turn_id turn messages Status.completed s i =
      completed_result-Holds deadline turn_id turn
        (linked (find_message turn.assistant_message_id messages)) s i
  status_result-Holds pages deadline turn_id turn messages Status.prepared s i = returned _ s i
  status_result-Holds pages deadline turn_id turn messages Status.unacknowledged s i =
      returned _ s i
  status_result-Holds pages deadline turn_id turn messages Status.unfinished s i = returned _ s i
  status_result-Holds pages deadline turn_id turn messages Status.responded s i = returned _ s i
  status_result-Holds pages deadline turn_id turn messages Status.failed s i = returned _ s i
  status_result-Holds pages deadline turn_id turn messages Status.interrupted s i = returned _ s i

  found_result-Holds :
      (pages : ℕ) (deadline : Option ℕ) (turn_id : String) (turn : Option TaskTurn)
      (messages : List TaskMessage)
      → Holds I (found_result P on_checkpoint on_event pages deadline turn_id turn messages)
  unfolding found_result
  found_result-Holds pages deadline turn_id none messages s i = returned _ s i
  found_result-Holds pages deadline turn_id (some turn) messages s i =
      status_result-Holds pages deadline turn_id turn messages (status_of turn.state) s i

  scanned_result-Holds :
      (pages : ℕ) (deadline : Option ℕ) (turn_id : String) (scan : Option Scan)
      → Holds I (scanned_result P on_checkpoint on_event pages deadline turn_id scan)
  unfolding scanned_result
  scanned_result-Holds pages deadline turn_id none s i = returned _ s i
  scanned_result-Holds pages deadline turn_id (some scan) s i =
      found_result-Holds pages deadline turn_id scan.turn scan.messages s i

  submission_result-Holds :
      (pages : ℕ) (deadline : Option ℕ) (submission : Submission)
      → Holds I (submission_result P on_checkpoint on_event pages deadline submission)
  unfolding submission_result observed
  submission_result-Holds pages deadline Submission.prepared s i = returned _ s i
  submission_result-Holds pages deadline Submission.unacknowledged s i = returned _ s i
  submission_result-Holds pages deadline Submission.accepted s i =
      let c = s.task.checkpoint in
      Post-bind (stored_int c.sequence) _ s (stored_int-Holds I c.sequence s i) λ sequence t _ j.
        Post-bind (scan_thread P on_checkpoint on_event pages deadline c.turn_id sequence _) _ t
          (scan_thread-Holds pages deadline c.turn_id sequence _ t j)
          λ found u _ k. scanned_result-Holds pages deadline c.turn_id found u k

  pub result_from-Holds :
      (pages : ℕ) (deadline : Option ℕ)
      → Holds I (result_from P on_checkpoint on_event pages deadline)
  unfolding result_from
  result_from-Holds pages deadline s i =
      submission_result-Holds pages deadline s.task.checkpoint.submission s i
