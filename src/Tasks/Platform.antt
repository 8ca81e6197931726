-- ===== src/Tasks/Platform.antt =====
-- What a task handle calls: the client's methods, the clock and the application's callbacks, over a
-- world that they may change; and the state of one handle.
pub mod Steps
use deixic_python.Base.{
  ℕ, ◌-◌, String, Bool, true, false, Option, none, some, List, leb, truthy, if◌then◌else◌, Result,
  ok, err, Action, pure, raise, lift, gets, modify, ◌>>=◌,
}
use deixic_python.Base.Int.{ℤ}
use deixic_python.Base.Decimal.{int}
use deixic_python.Errors.{DeixicError, plain_error, Kind, protocol}
use deixic_python.Tasks.Voice.{VoiceSelection}
use deixic_python.Tasks.Types.{
  Checkpoint, Accepted, ThreadPage, EventPage, Receipt, TaskEvent, Raised, deixic, deadline_reached,
  callback_failed, value_error,
}

-- The arguments of `messages.send`, `threads.get`, `events.list` and `receipts.get`.
pub record SubmitRequest : Type 0 where
  pub channel_id : String
  pub body : String
  pub idempotency_key : String
  pub project_resource_id : Option String
  pub voice_selection : Option VoiceSelection

pub record ThreadRequest : Type 0 where
  pub channel_id : String
  pub limit : ℕ
  pub page_token : String
  pub timeout : Option ℕ

pub record EventsRequest : Type 0 where
  pub channel_id : String
  pub after_cursor : ℤ
  pub timeout : Option ℕ

pub record ReceiptRequest : Type 0 where
  pub channel_id : String
  pub receipt_id : String
  pub timeout : Option ℕ

abbrev pub Call : Type 0 → Type 0 → Type 0
Call World A = World → Result Raised A × World

-- The clients that `tasks.py` calls, `time.monotonic` in ticks, and the deterministic serialisation
-- of an event by the protobuf library.
pub record Platform : Type 1 where
  pub World : Type 0
  pub send : SubmitRequest → Call World Accepted
  pub get_thread : ThreadRequest → Call World ThreadPage
  pub list_events : EventsRequest → Call World EventPage
  pub get_receipt : ReceiptRequest → Call World Receipt
  pub monotonic : World → ℕ × World
  pub serialize : TaskEvent → List ℕ

-- The fields of `Task` that change.
pub record TaskState : Type 0 where
  pub checkpoint : Checkpoint
  pub event : Option TaskEvent
  pub submitting : Bool
  pub observing : Bool

pub record Session (World : Type 0) : Type 0 where
  pub task : TaskState
  pub world : World

abbrev pub Run : Type 0 → Type 0 → Type 0
Run World A = Action (Session World) Raised A

abbrev pub wrapped : {A : Type 0} → Result Raised A → Result Raised A
wrapped (ok a) = ok a
wrapped (err e) = err (callback_failed e)

module _ {World : Type 0} where
  abbrev pub call : {A : Type 0} → Call World A → Run World A
  call m s = let (r, w) = m s.world in (r, record s { world = w })

  abbrev pub set_checkpoint : (Checkpoint → Checkpoint) → Run World (Unit {0})
  set_checkpoint f s =
      (ok tt, record s { task = record s.task { checkpoint = f s.task.checkpoint } })

  abbrev pub set_event : Option TaskEvent → Run World (Unit {0})
  set_event e s = (ok tt, record s { task = record s.task { event = e } })

  abbrev pub raise_protocol_if : Bool → String → Run World (Unit {0})
  raise_protocol_if true message s = (err (deixic (plain_error message protocol)), s)
  raise_protocol_if false message s = (ok tt, s)

  -- A check that raises a `DeixicError`.
  abbrev pub checked : {A : Type 0} → Result DeixicError A → Run World A
  checked (ok a) s = (ok a, s)
  checked (err e) s = (err (deixic e), s)

  -- `_application_call`
  unfoldable pub application_call : {A : Type 0} → Run World A → Run World A
  application_call m s = let (r, s') = m s in (wrapped r, s')

  -- `int(self._state[…])`
  abbrev pub stored_int : String → Run World ℤ
  stored_int text s = elim (int text) [ some n ↦ (ok n, s) | none ↦ (err value_error, s) ]

  -- `Task._save`
  unfoldable pub save : Option (Checkpoint → Call World (Unit {0})) → Run World (Unit {0})
  save none s = (ok tt, s)
  save (some on_checkpoint) s = call (on_checkpoint s.task.checkpoint) s

module _ (P : Platform) where
  -- `_remaining`
  unfoldable pub remaining : Option ℕ → Run P.World (Option ℕ)
  remaining none s = (ok none, s)
  remaining (some deadline) s =
      let (now, w) = P.monotonic s.world in
      let later = record s { world = w } in
      if leb deadline now
      then (err deadline_reached, later)
      else (ok (some (deadline - now)), later)
