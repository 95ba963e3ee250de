-- ===== src/Lib.antt =====
-- The message gateway of server/: clients submit SMS, the dispatcher reserves a SIM on one of the
-- enrolled phones, hands the command to the phone, and follows the message to a terminal status.
--
-- Parts, and how they interact:
--   SmsText       server/internal/smstext/segment.go: encoding and segment count (Analyze).
--   Router        server/internal/router: Msisdn (NormalizeMSISDN, DetectOperator of operator.go),
--                 Carrier (CarrierToOperator), Engine (Route, reserve, Release of router.go).
--   Ws            server/internal/ws: Protocol (payloads of protocol.go), Hub (the registry of hub.go
--                 and the send buffers of conn.go).
--   Fleet         server/internal/fleet/fleet.go: UpsertSims, DeviceSimStates, SetSimQuota.
--   Dispatch      server/internal/dispatch/dispatcher.go: State (what it works on, setStatus,
--                 terminate, event, advanceIfPinned), Send (claim, wakeFor, deliverCommand,
--                 dispatchOne, the drain loop of worker), Inbound (HandleFrame, onSendAck,
--                 onDeliveryReport, onCancelAck, rejectAndRequeue), Reaper (one tick of reaper).
--   Api           server/internal/api: Auth (auth.go), Messages (messages.go), Device (device.go and
--                 the enrollment of ws.go). Its device endpoints call the handlers of Dispatch.
--                 RateLimit: the buckets of ratelimit.go over the library's limiter. Listing: the
--                 listings of messages.go and devices.go. Server: the routes of clients in server.go
--                 behind authentication, scope and rate limit, and the probes. Socket: deviceWS.
--   Webhook       server/internal/webhook/webhook.go: enqueue and fail, and in Delivery the request of
--                 deliverOne with its payload and signature, deliverBatch, and a tick of Run.
--   Secret        server/internal/secret/secret.go: Password (Hash, Verify), Random (RandomToken),
--                 Sealed (Seal, Open), with the base64 that they use.
--   Config        server/internal/config/config.go: Load.
--   I18n          server/internal/i18n: Resolve, T, register.
--   Metrics       server/internal/metrics/metrics.go: Collect.
--   Retention     server/internal/maintenance/retention.go: purge, and the start of Run.
--   Admin         server/internal/admin: Console (what a request meets; roles and audit rows of
--                 admin.go), Session (requireSession, doLogin, doLogout, bootstrapOwner), Flash
--                 (flash.go), Fleet, Routing and Traffic (actions.go, sendCompose and unmaskMSISDN of
--                 handlers.go, loadFallback of router.go, ensureSettings of store.go), Access and
--                 Keys (the API keys of handlers.go), Actions (the routes of Mount behind their
--                 roles), Overview, Pages and Secrets (what the pages of handlers.go show), Settings
--                 (settings.go, qr.go), Render (the functions of the templates in render.go).
--                 They write the tables that Api and Dispatch read: keys, clients, devices, SIMs.
--   Store         server/internal/store/store.go: BootstrapClient, BootstrapEnrollmentToken,
--                 seedPrefixes and LoadPrefixes, which a start runs; Boot is what they take from outside.
--   Start         server/cmd/wsmsd/main.go with Open of store.go: a start, with the first purge of the
--                 retention and without the rounds of the workers that it starts too.
--   System        the calls of Dispatch, of devices, of clients and of the console as one step
--                 relation, and these steps and the purges of Retention in any order.
--   Models        server/internal/models/models.go: the enumerations and the tables.
--   Base, Text    shared names, tables as lists of rows with the statements that the server runs,
--                 integers, and text as lists of code points. Samples holds rows for tests.
--
-- A handler is a function from the tables (Db), and where it uses them the hub and the throttle of
-- the pushes, to the same and its answer. One statement of the database is one step inside it; what
-- other transactions do between two statements is an argument (others) where it matters. What comes
-- from outside is an argument: World (the clock, row locks, the choices of random(), whether the
-- database answers), Env (the locked messages, the choices of a select, the outcome of pushes, whether
-- the ledger row can be stored), Ids
-- (new ids), Crypto (argon2id, AES-GCM, HMAC), Limiter (x/time/rate),
-- Net (what a callback meets), Submit, Enroll and ConsoleEnv (one request). Ids are opaque
-- numbers, times are milliseconds with one reading of the clock for each call, and a statement
-- succeeds unless one of these arguments says otherwise. The machine integers are counters and
-- segment counts far below 2^63; the one product that can wrap, the time to live in nanoseconds,
-- wraps at 2^64. The drain loop runs on fuel, the number of its rounds, since it has no bound of its
-- own.
--
-- Not modelled: JSON, HTTP, the pumps of the sockets, logging, the templates, the daily series of the
-- overview and what else is formatted as a date or a float, the catalogues of texts, the documentation
-- of the API, the client of Google FCM, the signals and the shut-down in cmd/wsmsd, the phone application.
-- Argon2id, AES-GCM, HMAC, SHA-256, x/time/rate and the parsers of floats and durations are arguments.
pub mod Admin
pub mod Api
pub mod Base
pub mod Dispatch
pub mod Fleet
pub mod Models
pub mod Retention
pub mod Router
pub mod Samples
pub mod Secret
pub mod Config
pub mod I18n
pub mod Metrics
pub mod SmsText
pub mod Start
pub mod Store
pub mod System
pub mod Text
pub mod Webhook
pub mod Ws
