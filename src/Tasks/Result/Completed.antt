-- ===== src/Tasks/Result/Completed.antt =====
-- Reading a result changes nothing of the handle, and what a completed result is made of.
use deixic_python.Base.{
  ℕ, true, ◌≡◌, refl, sym, ap, subst, All, ◌∙◌, Option, none, some, List, [], map, ok, arith,
}
use deixic_python.Base.Int.{ℤ}
use deixic_python.Base.Decimal.{int}
use deixic_python.Base.Post.{Post, returned, raised, Post-bind, Post-state, Post-ok}
use deixic_python.Tasks.Types.{
  Checkpoint, TaskEvent, TaskTurn, TaskMessage, Receipt, Submission, Status, TaskResult,
}
use deixic_python.Tasks.Platform.{Platform, Call, TaskState, Session, stored_int}
use deixic_python.Tasks.Platform.Steps.{parses}
use deixic_python.Tasks.Backfill.{find_request, waiting_request}
use deixic_python.Tasks.Result.{
  find_message, is_completed, status_of, distinct, linked, is_assistant, Scan, scan_thread,
  read_receipts, completed_result, status_result, found_result, scanned_result, observed,
  submission_result, result_from,
}
use deixic_python.Tasks.Result.Served.{
  HasTurn, HasMessage, HasReceipt, ReadTurn, ReadSome, find_message-HasMessage,
}
use deixic_python.Tasks.Result.Reads.{
  Fits, FitsScan, completed-state, find_message-id, Kept, find_request-Kept, read_receipts-Post,
  scan_thread-Post,
}

-- What a completed result is made of: the accepted turn, with its sequence, as a completed one; the
-- assistant's message to which the turn is linked; and a receipt for each of its distinct receipts.
pub record IsComplete (c : Checkpoint) (r : TaskResult) : Type 0 where
  pub turn_found : TaskTurn
  pub message_found : TaskMessage
  pub turn_given : r.turn ≡ some turn_found
  pub message_given : r.message ≡ some message_found
  pub body_given : r.body ≡ some message_found.body
  pub turn_accepted : turn_found.turn_id ≡ c.turn_id
  pub sequence_accepted : int c.sequence ≡ some turn_found.sequence
  pub turn_completed : is_completed turn_found.state ≡ true
  pub message_linked : message_found.id ≡ turn_found.assistant_message_id
  pub message_role : is_assistant message_found.role ≡ true
  pub receipts_given : map (λ (x : Receipt). x.id) r.receipts ≡ distinct message_found.receipt_ids

-- Where the parts of a result come from: its turn and its message are on pages of the checkpoint's
-- thread with which the server answered requests for this thread, and each receipt is the server's
-- answer to a request for a receipt of its identity in this thread.
pub record IsShown (P : Platform) (c : Checkpoint) (r : TaskResult) : Type 0 where
  pub turn_shown : (t : TaskTurn) × (r.turn ≡ some t) × HasTurn P c.channel_id t
  pub message_shown : (m : TaskMessage) × (r.message ≡ some m) × HasMessage P c.channel_id m
  pub receipts_shown : All (HasReceipt P c.channel_id) r.receipts

module _ (P : Platform) (on_checkpoint : Option (Checkpoint → Call P.World (Unit {0})))
    (on_event : Option (TaskEvent → Call P.World (Unit {0}))) (k : TaskState) where
  -- The handle is as it was.
  abbrev Same : Session P.World → Type 0
  Same = Kept P on_checkpoint on_event k

  -- What is shown of a result.
  abbrev Shown : Checkpoint → TaskResult → Session P.World → Type 0
  Shown c r t = Same t × (r.status ≡ Status.completed → IsComplete c r × IsShown P c r)

  linked-inv :
      (o : Option TaskMessage) (m : TaskMessage)
      → linked o ≡ some m
      → (o ≡ some m) × (is_assistant m.role ≡ true)
  linked-inv none m h = cc
  linked-inv (some n) m h = ground arith

  completed_result-Post :
      (deadline : Option ℕ) (c : Checkpoint) (turn : TaskTurn) (messages : List TaskMessage)
      (o : Option TaskMessage) (s : Session P.World)
      → Same s
      → k.checkpoint.channel_id ≡ c.channel_id
      → HasTurn P k.checkpoint.channel_id turn
      → All (HasMessage P k.checkpoint.channel_id) messages
      → turn.turn_id ≡ c.turn_id
      → int c.sequence ≡ some turn.sequence
      → is_completed turn.state ≡ true
      → linked (find_message turn.assistant_message_id messages) ≡ o
      → Post (Shown c) Same (completed_result P on_checkpoint on_event deadline c.turn_id turn o s)
  unfolding completed_result
  completed_result-Post deadline c turn messages none s h own shown served i q z e = raised _ s h
  completed_result-Post deadline c turn messages (some m) s h own shown served i q z e =
      let (found, role) = linked-inv _ m e in
      Post-bind (read_receipts P on_checkpoint on_event deadline (distinct m.receipt_ids)) _ s
        (read_receipts-Post P on_checkpoint on_event k deadline (distinct m.receipt_ids) s h)
        λ rs t _ (g, ids, answered). returned _ t (
          g,
          λ _. (
            record {
              turn_found = turn;
              message_found = m;
              turn_given = refl;
              message_given = refl;
              body_given = refl;
              turn_accepted = i;
              sequence_accepted = q;
              turn_completed = z;
              message_linked = find_message-id _ messages m found;
              message_role = role;
              receipts_given = ids;
            },
            record {
              turn_shown = (turn, refl, subst (λ x. HasTurn P x turn) own shown);
              message_shown = (
                m,
                refl,
                subst (λ x. HasMessage P x m) own
                    (find_message-HasMessage P k.checkpoint.channel_id _ messages m served found),
              );
              receipts_shown = subst (λ x. All (HasReceipt P x) rs) own answered;
            },
          ),
        )

  status_result-Post :
      (pages : ℕ) (deadline : Option ℕ) (c : Checkpoint) (turn : TaskTurn)
      (messages : List TaskMessage) (status : Status) (s : Session P.World)
      → Same s
      → k.checkpoint.channel_id ≡ c.channel_id
      → HasTurn P k.checkpoint.channel_id turn
      → All (HasMessage P k.checkpoint.channel_id) messages
      → turn.turn_id ≡ c.turn_id
      → int c.sequence ≡ some turn.sequence
      → status_of turn.state ≡ status
      → Post
          (Shown c)
          Same
          (status_result P on_checkpoint on_event pages deadline c.turn_id turn messages status s)
  unfolding status_result waiting_request
  status_result-Post pages deadline c turn messages Status.completed s h own shown served i q e =
      completed_result-Post deadline c turn messages _ s h own shown served i q
        (completed-state turn.state e) refl
  status_result-Post pages deadline c turn messages Status.waiting s h own shown served i q e =
      Post-bind (find_request P on_checkpoint on_event pages deadline turn _ none) _ s
        (find_request-Kept P on_checkpoint on_event k pages deadline turn _ none s h)
        λ event t _ g. returned _ t (g, λ z. cc)
  status_result-Post pages deadline c turn messages Status.prepared s h own shown served i q e =
      returned _ s (h, λ z. cc)
  status_result-Post pages deadline c turn messages Status.unacknowledged s h own shown served i q
        e =
      returned _ s (h, λ z. cc)
  status_result-Post pages deadline c turn messages Status.unfinished s h own shown served i q e =
      returned _ s (h, λ z. cc)
  status_result-Post pages deadline c turn messages Status.responded s h own shown served i q e =
      returned _ s (h, λ z. cc)
  status_result-Post pages deadline c turn messages Status.failed s h own shown served i q e =
      returned _ s (h, λ z. cc)
  status_result-Post pages deadline c turn messages Status.interrupted s h own shown served i q e =
      returned _ s (h, λ z. cc)

  found_result-Post :
      (pages : ℕ) (deadline : Option ℕ) (c : Checkpoint) (sequence : ℤ) (turn : Option TaskTurn)
      (messages : List TaskMessage) (s : Session P.World)
      → Same s
      → k.checkpoint.channel_id ≡ c.channel_id
      → int c.sequence ≡ some sequence
      → Fits c.turn_id sequence turn
      → ReadTurn P k.checkpoint.channel_id turn
      → All (HasMessage P k.checkpoint.channel_id) messages
      → Post
          (Shown c)
          Same
          (found_result P on_checkpoint on_event pages deadline c.turn_id turn messages s)
  unfolding found_result
  found_result-Post pages deadline c sequence none messages s h own q f shown served =
      returned _ s (h, λ z. cc)
  found_result-Post pages deadline c sequence (some t) messages s h own q (i, n) shown served =
      status_result-Post pages deadline c t messages (status_of t.state) s h own shown served i
        (q ∙ ap some (sym n)) refl

  scanned_result-Post :
      (pages : ℕ) (deadline : Option ℕ) (c : Checkpoint) (sequence : ℤ) (o : Option Scan)
      (s : Session P.World)
      → Same s
      → k.checkpoint.channel_id ≡ c.channel_id
      → int c.sequence ≡ some sequence
      → FitsScan c.turn_id sequence o
      → ReadSome P k.checkpoint.channel_id o
      → Post (Shown c) Same (scanned_result P on_checkpoint on_event pages deadline c.turn_id o s)
  unfolding scanned_result
  scanned_result-Post pages deadline c sequence none s h own q f read = returned _ s (h, λ z. cc)
  scanned_result-Post pages deadline c sequence (some scan) s h own q f (shown, served) =
      found_result-Post pages deadline c sequence scan.turn scan.messages s h own q f shown served

  observed-Post :
      (pages : ℕ) (deadline : Option ℕ) (s : Session P.World)
      → Same s
      → Post (Shown s.task.checkpoint) Same (observed P on_checkpoint on_event pages deadline s)
  unfolding observed
  observed-Post pages deadline s h =
      let c = s.task.checkpoint in
      let start : Scan = record { turn = none; messages = []; page_token = ""; seen = [] } in
      Post-bind (stored_int c.sequence) _ s
        (parses {Q = λ n t. Same t × (int c.sequence ≡ some n)} c.sequence s (λ n e. (h, e)) h)
        λ sequence t _ (g, q).
          Post-bind (scan_thread P on_checkpoint on_event pages deadline c.turn_id sequence start) _
            t
            (scan_thread-Post P on_checkpoint on_event k pages deadline c.turn_id sequence start t
              tt (tt, tt) g)
            λ o u _ (l, f, read).
              scanned_result-Post pages deadline c sequence o u l
                (sym (ap (λ j. j.checkpoint.channel_id) h)) q f read

  submission-Post :
      (pages : ℕ) (deadline : Option ℕ) (submission : Submission) (s : Session P.World)
      → Same s
      → Post
          (Shown s.task.checkpoint)
          Same
          (submission_result P on_checkpoint on_event pages deadline submission s)
  unfolding submission_result
  submission-Post pages deadline Submission.prepared s h = returned _ s (h, λ z. cc)
  submission-Post pages deadline Submission.unacknowledged s h = returned _ s (h, λ z. cc)
  submission-Post pages deadline Submission.accepted s h = observed-Post pages deadline s h

module _ (P : Platform) (on_checkpoint : Option (Checkpoint → Call P.World (Unit {0})))
    (on_event : Option (TaskEvent → Call P.World (Unit {0}))) where
  pub result_from-Post :
      (pages : ℕ) (deadline : Option ℕ) (s : Session P.World)
      → Post
          (Shown P on_checkpoint on_event s.task s.task.checkpoint)
          (Kept P on_checkpoint on_event s.task)
          (result_from P on_checkpoint on_event pages deadline s)
  unfolding result_from
  result_from-Post pages deadline s =
      submission-Post P on_checkpoint on_event s.task pages deadline s.task.checkpoint.submission s
        refl

  -- Reading a result changes nothing of the handle: neither its checkpoint nor its cursor nor the event
  -- it has seen last, whether it returns or raises.
  pub result_from-task :
      (pages : ℕ) (deadline : Option ℕ) (s : Session P.World)
      → (result_from P on_checkpoint on_event pages deadline s).1.task ≡ s.task
  result_from-task pages deadline s =
      Post-state (Kept P on_checkpoint on_event s.task)
        (result_from P on_checkpoint on_event pages deadline s) (result_from-Post pages deadline s)
        (λ _ t h. h.0) (λ t h. h)

  -- A result that says `completed` is the accepted turn's, as the server has shown it. Its turn has the
  -- checkpoint's turn identity and sequence and the state completed, its message is the assistant's to
  -- which this turn is linked, its body is the message's, and it holds a receipt for each distinct
  -- receipt identity of this message, in their order. The turn and the message are on pages of the
  -- checkpoint's thread with which the server answered requests for this thread, and each receipt is
  -- its answer to a request for a receipt of this identity in this thread.
  pub result_from-IsComplete :
      (pages : ℕ) (deadline : Option ℕ) (s t : Session P.World) (r : TaskResult)
      → result_from P on_checkpoint on_event pages deadline s ≡ (ok r, t)
      → r.status ≡ Status.completed
      → IsComplete s.task.checkpoint r × IsShown P s.task.checkpoint r
  result_from-IsComplete pages deadline s t r h completed =
      (Post-ok (result_from P on_checkpoint on_event pages deadline s) h
          (result_from-Post pages deadline s)).1
        completed
