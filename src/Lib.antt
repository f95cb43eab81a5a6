-- ===== src/Lib.antt =====
-- GoRead2, an RSS reader: a model of its store, caches, sessions, services and HTTP handlers.
--
-- The program keeps users, feeds, articles, subscriptions and read marks in a store
-- (internal/database), caches unread counts and the list of feeds in memory (internal/cache), and
-- serves readers through a feed service that writes to the store and then adjusts or drops what is
-- cached (internal/services). A session manager (internal/auth) signs users in.
--
-- - Base: lists, association maps with their lemmas, Boolean tests, and Go's `int` of 64 bits with its
--   wrap-around (`wrap`).
-- - Database models internal/database/schema.go: a table is a map from its primary key, `Db` is the
--   state, and each function is one method of `DB` (Users, Accounts, Feeds, Articles, Sessions, Pages,
--   Orphans, Audit, Stats). `up` says whether the driver answers; while it does not every statement fails.
--   Foreign keys are not enforced, since InitDB never turns them on. Dates are stored as texts: the order of
--   those that the pages compare, and the tests of an article's age where unread articles are counted and in
--   the cleanup, are parameters (`Texts`, `Older`).
--   Database/Unread and Database/Stars hold the lemmas on read marks.
-- - Datastore models internal/database/datastore.go and datastore_update.go over the client of Google Cloud
--   Datastore, whose calls on entities are those of Datastore.antt: a script gives what the service does
--   with each call (it answers, fails, carries the call out and loses the answer, or reports single keys of
--   a batch read), and the entities of each kind are held by the same `Db` (Users, Sessions, Feeds,
--   Subscriptions, Marks, Counts, Pages, Orphans). Times are kept to the microsecond (`micro`).
--   Datastore/Agreement compares the two stores.
-- - Cache/Unread models internal/cache/unread_cache.go, Cache/FeedList models
--   internal/cache/feed_list_cache.go. The methods hold the mutex of their cache throughout, so each is
--   one function from state to state, and `run` is any sequence of calls.
-- - Services/Subscription and Services/Tokens model internal/services/subscription_service.go: who may add
--   feeds, and the admin tokens over SQLite with the hash as a parameter.
-- - Services/Reading, Services/Refresh and Services/Adding model
--   internal/services/feed_service.go: marking and counting over the store and the caches, the
--   refresh of feeds, adding feeds and OPML import. What `fetchFeed` returns over the network is a parameter, and so is whether a
--   feed is added within the timeout.
-- - Auth/Session models internal/auth/session.go: sessions with their cache, and in Auth/Session/OneTime
--   the OAuth states and the mobile auth codes. Random ids are arguments.
-- - Services/Limiter models internal/services/rate_limiter.go and Auth/Limiter with Auth/Client models
--   internal/auth/rate_limiter.go and internal/auth/client_ip.go: maps of token buckets. The bucket of
--   golang.org/x/time/rate is a parameter.
-- - Services/Scheduler models internal/services/feed_scheduler.go: the schedule and one update as
--   functions, Services/Scheduler/Dispatch the loop that starts the updates as a step relation over
--   the loop, its goroutines, the clock and `Stop`, Services/Scheduler/Lifecycle Start and Stop.
-- - Services/Urls models internal/services/url_validator.go, and Auth/Guard models the handlers of
--   internal/auth/middleware.go, csrf.go, cron.go and tasks.go that stand before the routes of main.go.
-- - Services/Audit and Database/Audit model internal/services/audit_service.go and the audit logs of the
--   store, Services/Payments the webhook of internal/services/payment_service.go.
-- - Handlers/Feeds and Handlers/Articles model the routes for readers of internal/handlers/feed_handler.go
--   and article_handler.go over internal/middleware/request_cache.go (Handlers/Server),
--   Handlers/Admin the routes of internal/handlers/admin_handler.go; `logged` says whether the driver
--   answers the write of the audit log.
--
-- Times are nanoseconds since the zero `time.Time`, a method that reads the clock takes the reading as
-- an argument. All loops are structural recursion over lists, so no fuel is needed; a client's
-- walk over pages has the number of pages as an argument. The iteration order of a Go map is that of the
-- association list.
--
-- Not modelled: network access, XML, HTML and the decoding of HTTP
-- requests, calls to Stripe, configuration, the identity provider, the
-- deadlines of Datastore calls and the order in which queries that run at the same time return.
-- Concurrent calls are sequences of whole calls, except in Services/Scheduler/Dispatch, where a started
-- update is under way until it finishes, and in the OPML import, where the goroutines of late feeds end
-- between later rounds; the part of `GetSession` outside its locks is not split.
pub mod Base
pub mod Database
pub mod Datastore
pub mod Cache
pub mod Services
pub mod Auth
pub mod Handlers
