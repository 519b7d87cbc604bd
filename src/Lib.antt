-- ===== src/Lib.antt =====
-- Verification of the NSW Transport API, a NestJS server in TypeScript (src/ of the repository), that
-- serves New South Wales transport data over REST and GraphQL.
--
-- Parts of the program and their models:
-- Common: what the models share. Boolean tests, lists, dictionaries with text keys (a JavaScript
-- Map), signed integers, and the JavaScript string functions in use.
-- Cache: src/cache/cache.service.ts. Cache/Redis states what is relied on of Redis and of JSON, as
-- interfaces with laws; Cache/Service is CacheService over them; Cache/Locks, Cache/Flights and
-- Cache/Flush show what acquireLock, consumeOnce, getOrSet and flush promise to callers that
-- share the cache; Cache/Sample is a store in memory that satisfies the interfaces.
-- Auth: src/auth/. Auth has the tables, the outside services and the shared state; Auth/Refresh is
-- refreshSession of supabase-auth.service.ts, with Auth/Rotation and Auth/Refusal about it over
-- several requests; Auth/Exchange is exchangeSupabaseToken; Auth/Credentials is api-key.service.ts
-- and, in Auth/Credentials/Users, resolveOrCreateUser; Auth/Guards is src/auth/guards/, and
-- Auth/Access says what passes them. Auth uses the cache by the laws of Cache/Service alone.
-- Audit: src/audit/. Audit/Redaction is audit.redaction.ts and Audit/Redaction/Clean is about it;
-- Audit/Events has the types of audit.types.ts; Audit/Records is the writing side of
-- audit.service.ts with its queue in Redis, and Audit/Delivery says what becomes of an event;
-- Audit/Query has the conditions and cursors of its queries and Audit/Pages their answers in pages,
-- with Audit/Pages/Walk about a client that follows the cursors.
-- Alerts: Alerts/Lines is src/history/line-health-alerts.service.ts; Alerts/Commute is the scan of
-- src/push/commute-alert.service.ts, which calls it; Alerts/Open, Alerts/Resolving,
-- Alerts/Scanning and Alerts/Cooldown are about them.
-- Gtfs: src/gtfs-static/gtfs-ingest.util.ts, with Gtfs/Dedupe about the rows of one insertion.
-- History: src/history/history-aggregate.util.ts and its helpers, which turn samples of the
-- realtime feeds into per-line figures; History/Sampler is the core of `sample` in
-- history-sampler.service.ts, which calls it and keeps the trips that were counted in the cache, over
-- the laws of Cache/Service.
-- Realtime: src/realtime/. Realtime/Match is findRealtimeMatch of realtime.service.ts, over the texts of
-- Realtime/Texts; Realtime/Stops is enrichStopTimeUpdates, Realtime/Clock gtfs-time.util.ts,
-- Realtime/Sticky fetchWithStickyFallback and Realtime/Track trackTrip, both over the laws of
-- Cache/Service; Realtime/Poller is the reference counts of realtime-poller.service.ts.
-- Push: src/push/push.service.ts, its devices (Push/Devices) and its pairing codes (Push/Links), the
-- latter over the laws of Cache/Service.
-- Transport: src/transport/tfnsw-http.client.ts, the client of the upstream API, with its retries,
-- backoff and request slots.
--
-- Operations keep the source's names in snake case (refreshSession is refresh_session). State is
-- passed explicitly and an operation returns its answer with the state after it. Times are
-- milliseconds, or seconds where the source counts seconds, as natural numbers.
--
-- Parameters: Redis and JSON, the verification of tokens (jose) and of API keys (better-auth),
-- random ids, the clock, what Intl prints of Sydney's time, how far Redis trims the audit queue,
-- Date.parse, the platform's time zone in Date.UTC, the upstream server, the replies of Firebase,
-- the random jitter, and the pages that SCAN returns. Loops are structural: the retry loop runs on
-- its bound of eight rounds, which is the source's own, and the others on their lists. Averages and
-- shares are compared as exact fractions; the doubles of the source agree with them for counts
-- below 10^15. Case conversion is that of ASCII letters.
--
-- Not modelled: the parts that only forward to the database, to HTTP or to other services
-- (controllers, resolvers, modules, DTOs, the health and station services), the ingest of static
-- GTFS files, trip planning, the archives and exports of the audit trail, headways, and storage.
pub mod Common
pub mod Auth
pub mod Audit
pub mod Alerts
pub mod Cache
pub mod Gtfs
pub mod History
pub mod Push
pub mod Realtime
pub mod Transport
