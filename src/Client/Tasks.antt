-- ===== src/Client/Tasks.antt =====
-- The client as the platform of its tasks: `TasksClient` and `Task` call the clients of resources, which
-- call `_unary`.
pub mod Sends
use deixic_python.Base.{ℕ, String, false, Option, none, some, List, [], Result, ok, err, Action}
use deixic_python.Base.Int.{ℤ, pos}
use deixic_python.Value.{Value, Float, finite}
use deixic_python.Tasks.Types.{Accepted, ThreadPage, EventPage, TaskEvent, Receipt}
use deixic_python.Tasks.Platform.{
  Platform, SubmitRequest, ThreadRequest, EventsRequest, ReceiptRequest,
}
use deixic_python.Client.{Config}
use deixic_python.Client.Network.{Network, Connection, Talk}
use deixic_python.Client.Resources.{Codec, threads_get, events_list, messages_send, receipts_get}

-- A number of seconds that the task handle computes, in billionths.
abbrev pub seconds : Option ℕ → Option Value
seconds none = none
seconds (some n) = some (Value.float (finite (pos n)))

abbrev pub optional_text : Option String → Option Value
optional_text none = none
optional_text (some s) = some (Value.text s)

module _ (N : Network) (config : Config) (codec : Codec) (monotonic : N.World → ℕ × N.World)
    (serialize : TaskEvent → List ℕ) where
  -- The calls of tasks.py.
  unfoldable pub send_task : SubmitRequest → Talk N.World Accepted
  send_task q =
      messages_send N config codec (Value.text q.channel_id) q.body (Value.text q.idempotency_key)
        "" [] (optional_text q.project_resource_id) none q.voice_selection

  unfoldable pub get_thread : ThreadRequest → Talk N.World ThreadPage
  get_thread q =
      threads_get N config codec (Value.text q.channel_id) (Value.int (pos q.limit))
        (Value.int (pos 0)) q.page_token (seconds q.timeout)

  unfoldable pub list_events : EventsRequest → Talk N.World EventPage
  list_events q =
      events_list N config codec (Value.text q.channel_id) (Value.int q.after_cursor)
        (Value.int (pos 200)) (seconds q.timeout)

  unfoldable pub get_receipt : ReceiptRequest → Talk N.World Receipt
  get_receipt q =
      receipts_get N config codec (Value.text q.channel_id) (Value.text q.receipt_id) false
        (seconds q.timeout)

  abbrev pub task_platform : Platform
  task_platform = record {
    World = Connection N.World;
    send = send_task;
    get_thread = get_thread;
    list_events = list_events;
    get_receipt = get_receipt;
    monotonic = λ s. let (now, w) = monotonic s.world in (now, record s { world = w });
    serialize = serialize;
  }
