-- ===== src/Lib.antt =====
-- LLM Inference Logger: the model of the backend and what is proved of it.
--
-- The backend answers chat turns through a provider, wraps every provider call so that it publishes
-- one event, and carries the events over a stream to a worker that writes them into Postgres. A
-- streamed turn reaches the client as server-sent events over a bounded queue.
--
--   Prelude          shared types, tests, lists, text, sorting, and computations that may raise
--   Domain           backend/app/domain: enumerations and the event with its limits; also JSON
--                    values and the text form of a UUID
--   Core.Errors      backend/app/core/errors.py and the error handlers of backend/app/main.py
--   Core.Config      backend/app/core/config.py: `Settings`, `database_url` and `redis_url`, and a
--                    client that takes a URL apart
--   Db.Tables        backend/app/db/models.py: rows and constraints, and in Db.Texts the texts that
--                    the columns of the log take
--   Db.Migrations    backend/app/db/migrations/versions: statements over a schema; the first
--                    migration is in Initial, and the tables of backend/app/db/models.py with the
--                    names of backend/app/db/base.py are in Declared; backend/app/db/migrations/env.py
--                    is Env
--   Db.Session       backend/app/db/session.py: one unit of work under a schedule of faults
--   Db.RawEvents, Db.InferenceLogs, Db.Conversations
--                    backend/app/db/repositories: one definition per method, as a statement or a
--                    chain of statements
--   Db.Metrics       backend/app/db/repositories/metrics.py: `totals`, `time_series`, `by_provider`
--                    and `ingestion_health` over the rows
--   Events           backend/app/events/bus.py: the wire format and the stream as interfaces, and
--                    `InMemoryEventBus` in Memory; backend/app/events/redis_bus.py in Redis
--   Worker           backend/app/worker/consumer.py: `_handle` is handle, `process_batch` and
--                    `run_forever` are process_batch and run_rounds
--   Providers        backend/app/providers/base.py, registry.py, whose candidates are in Candidates,
--                    and, in Mock, mock.py; in Vendor anthropic_provider.py, openai_provider.py and
--                    openai_compatible.py
--   Instrumentation  backend/app/instrumentation: `InstrumentedProvider.stream_chat` is
--                    Wrapper.stream_chat over one call, `_publish_resiliently` and
--                    `drain_pending_publishes` are InFlight, as steps of the event loop; the
--                    redactor is Redaction, with `DEFAULT_RULES` in Rules and the engine that
--                    runs their patterns in Pattern
--   Chat             backend/app/services/chat.py: `recent_window` is in Window; `send`, `prepare` and
--                    `stream` with the two transactions of a turn are in Turn
--   Api.Chat         backend/app/api/chat.py: the plain turn `chat`, and the limits of its request
--   Api.Health       backend/app/api/health.py, with `Database.check`
--   Api.Frames       backend/app/api/chat.py: `_to_sse` and `chat_stream`, with `format_sse`
--   Api.Providers    backend/app/api/chat.py: `list_providers`
--   Api.Conversations
--                    backend/app/api/conversations.py: the four routes, each in a unit of work
--   Api.Logs         backend/app/api/metrics.py: `recent_errors` and `recent_logs`, and a client that
--                    follows the cursor
--   Api.Summary      backend/app/api/metrics.py: `summary`
--   App              the composition roots: `lifespan` of backend/app/main.py, `_run` of
--                    backend/app/worker/__main__.py, backend/app/events/factory.py, and
--                    `get_chat_service` of backend/app/api/deps.py; Mock puts them together for a
--                    turn with the mock provider
--   Pipeline         a wrapped call, the in-memory bus and the worker, composed
--   Api.Sse          `stream_with_disconnect_cancellation` of backend/app/api/sse.py, as steps
--
-- The worker holds an event stream and a database; the wrapper, in another process, only publishes.
-- What they share is the event and its wire format. The wire format (pydantic, JSON), the stream
-- and the clients of Redis and of the vendors are parameters with the laws that their interfaces
-- state, and so are the percentiles and `date_trunc` of Postgres, what Unicode says of code points
-- from 128 on, and the reading of an id from a query. Every call of the database may be served,
-- refused, or served with its answer lost, as a schedule in the state says, so the theorems on the
-- worker hold for every failure. Times are numbers of microseconds. The program's own code runs on
-- no fuel: loops are recursion on what they go through, and `run_forever` on the list of its
-- rounds. Fuel is taken only by the client that pages through the log, of which one more than there
-- are rows is enough, and by the scan of `Pattern.sub`, of which twice the length of the text and
-- two more is enough, since it goes on after an empty match at the same place once.
--
-- Not modelled: logging, how the settings are read from the environment, the signals that stop the
-- worker, what Alembic does to run the migrations that it finds pending, and the clients that the vendors' libraries build.
-- Concurrent transactions are seen one after another, an answer of the metrics is computed from one
-- state of the tables, rows that a query leaves in no order come in the order they are stored, and a
-- streamed turn is interrupted while it waits for a chunk or closed where it has yielded a text, and
-- not while it reads or writes the database. Postgres refuses a text with U+0000 or a surrogate in
-- it: the log row is tested for one, and in any other statement such a refusal is one of the
-- schedule. The worker is not followed on a payload of JSON that is no object.
pub mod Prelude
pub mod Domain
pub mod Core
pub mod Db
pub mod Events
pub mod Worker
pub mod Providers
pub mod Instrumentation
pub mod Chat
pub mod Api
pub mod App
pub mod Pipeline
