-- ===== src/Lib.antt =====
-- A model of the Deixic SDK for Python: the client library of a service that runs tasks for an
-- organization's workspace. An application prepares a task, submits it, stores checkpoints of it, and
-- later reads the task's events and its result; credentials come from a provider and are held to one
-- principal; responses are protobuf messages, alone or as a stream of enveloped frames.
--
-- The parts, with the file of the repository that each one models:
--   Errors          src/deixic/errors.py: `DeixicError`, the kinds of errors, `error_from_response`
--                   and `connect_stream_error`.
--   Auth            src/deixic/auth.py: `Credential`, `StaticCredentialProvider` and
--                   `CredentialIdentity`, whose `check` is a function from a credential and the
--                   identity's state to a result and the state behind it.
--   Stream          src/deixic/client.py, `_decode_stream`: the generator as a function from the
--                   chunks of the body, and from how their iteration ends, to the messages it yields
--                   and its outcome. Stream/Encode has the envelope of `_stream`.
--   Tasks/Voice     src/deixic/client.py, `normalize_voice_selection`, and the checkpoint's entry for
--                   it (`_voice_checkpoint`, `_voice_from_checkpoint` of src/deixic/tasks.py).
--   Tasks/Types     src/deixic/tasks.py: `TaskCheckpoint`, `TaskResult`, and of the messages the
--                   fields that tasks.py reads.
--   Tasks/Checks    src/deixic/tasks.py: `_identity`, `_body`, `_decimal`, `_pages`, `_positive`.
--   Tasks/Resume    src/deixic/tasks.py: `Task.checkpoint` and `TasksClient.resume`.
--   Tasks/Platform  what a task handle calls (the client's methods, the clock, the serialisation of
--                   an event), as a record of functions over a world that they may change; the state
--                   of a handle; `_save`, `_application_call`, `_remaining`.
--   Tasks/Submit    src/deixic/tasks.py: `TasksClient.prepare` and `start`, `Task.submit`, `replay`,
--                   `_submit`.
--   Tasks/Pages     src/deixic/tasks.py: `_validate_page` and the sorting of a page's events.
--   Tasks/Backfill  src/deixic/tasks.py: `Task._backfill`, `_waiting_request`.
--   Tasks/Result    src/deixic/tasks.py: `Task._result`.
--   Tasks/Setup     src/deixic/tasks.py: `TasksClient.check_setup`.
--   Tasks/Wait      src/deixic/tasks.py: one round of the loop of `Task.wait`; `Task.result`;
--                   `TaskResult.parse`. Tasks/Wait/Loop has `Task.wait` itself.
--   Client          src/deixic/client.py: the constructor of `Deixic` and the checks of arguments.
--   Client/Network  src/deixic/client.py: `_send`, `_unary` and `_stream`, as actions over the client's
--                   identity and a world that a transport and a credential provider change.
--   Client/Resources  src/deixic/client.py: the clients of threads, events, messages, voices, controls
--                   and receipts.
--   Client/Tasks    the client as the platform of Tasks/Platform.
--   Federation      src/deixic/federation.py: the checks, the errors and the reading of an exchange;
--                   Federation/Sources has the assertion sources.
--   Federation/Provider  src/deixic/federation.py: `WorkloadFederationCredentialProvider`;
--                   Federation/Provider/Exchange has `_exchange` and Federation/Provider/Methods
--                   `get_credential` and `refresh_credential`.
--   Tasks/Life      the stages of a submission, as an application sees them, and sequences of calls of
--                   one handle.
--   Base, Value     shared helpers; the values of Python that reach the source untyped.
--   Tests           runs of these on small inputs.
--
-- How code that changes state is read: a method is a function from a session (the handle's fields and
-- the world) to a result, a value or an exception, and the session behind it, so that what was written
-- before an exception stays written. What `finally` assigns is assigned behind both. The application's
-- callbacks are functions over the same world and may return or raise anything.
--
-- What is a parameter: the protobuf library, `json.loads`, `response.json()`, the transport, the
-- clock, `urlsplit`, `urlencode`, SHA-256, `datetime`, the file and the environment, and the
-- callbacks. The sleeps and the jitter of `Task.wait` are parameters too. Numbers are unbounded, as in
-- Python; the int64 range of the server's fields is a hypothesis where a theorem needs it.
--
-- Bounds: the loops over pages recurse on the number of pages that the source allows. The loop over
-- the decoder's buffer has fuel, the buffer's length; each round that goes on takes five bytes, and
-- Stream/Fuel shows that more fuel gives the same. A float is read in billionths and the clock in
-- whole ticks, which are billionths of a second for `Task.wait`; a deadline is one of its times.
-- The loops of `Task.wait` have as much fuel as the timeout has billionths of a second, and one more.
-- The attempts of an exchange recurse on the number that the constructor allows. The seconds
-- of federation.py are an interface of operations, whose laws hold of floats that are no NaN.
--
-- Not modelled: the lock of the federated provider, whose calls are single steps here;
-- src/deixic/transport.py, which hands requests to a library; the generated messages and the example
-- programs. Tests of types that the model's types already make, as
-- `callable(on_checkpoint)`, have no counterpart, nor has an error of the conversion of a number
-- or a text that no float or no UTF-8 can hold. Closing a response raises nothing, and a
-- callback does not call the handle that calls it.
pub mod Base
pub mod Value
pub mod Errors
pub mod Auth
pub mod Stream
pub mod Client
pub mod Federation
pub mod Tasks
mod Tests
