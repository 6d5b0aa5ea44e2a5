-- ===== src/Lib.antt =====
-- Verification of contestSync, a service that copies the coming programming contests into its users'
-- Google calendars.
--
-- The server and the worker share these parts. The scheduler puts tasks into a queue, which is an
-- AMQP broker or two channels of the process; consumers take them out. An extraction task fetches
-- the contests of a platform and stores them; a sync task calls SyncUser, which reads the user, the
-- selected platforms' contests and what is already in the calendar, and writes the rest to Google.
-- A cache (Valkey) stands in front of the database and holds the lock of each user. Events are sent
-- to Telegram. In front of the HTTP routes stand rate limiters and the checks of session and token.
--
-- The modules and the code that they model:
--   Common          Boolean tests, lists and byte strings measured by the native numbers; the parts
--                   of Go's packages strings, bytes and strconv that the code uses
--   World           models/models.go (records, keys), and the calls to the outside: an entry of a
--                   trace for each call, answered by a record of functions of the calls made before,
--                   so a service may answer anything at any time; programs over the trace
--   Sync            internal/sync/sync.go: Syncer (the record, handleSyncError), Load (the user, the
--                   time zone, the calendar, the synced events, the contests), Cleanup, Insert, User
--                   (SyncUser put together from these, with its deferred functions), EventId
--   Auth            internal/auth/auth.go: EncryptToken, DecryptToken
--   Telegram        internal/observability/telegram.go: Utf8 and Escape (EscapeHTML, and the
--                   EscapeTelegramHTML of internal/sync), Split (SplitMessage), Client (Send,
--                   sendChunk, the cooldown), Notices (Handle, TriggerSystemEvent), Manager (Start and
--                   Drain as a state machine)
--   Limiter         internal/api/middleware.go: localLimiter
--   Middleware      internal/api/middleware.go: getClientIP, RateLimitMiddleware, RequireAuth,
--                   CSRFMiddleware
--   Queue           internal/queue/amqp.go: State (New, connectAMQP, Health, Close), Publish,
--                   Channel (the in-memory sync consumer as a state machine), Delivery and Retries
--                   (what is done with a delivery), Consumer (runSelfHealingExtractionConsumer and
--                   runSelfHealingSyncConsumer, their loops over the channels), Backoff
--                   (reconnectWithBackoff), Extraction (handleExtraction), Stranded (StartConsumers)
--   Db              internal/db/db.go: ReadDB, and the read pools that Init keeps; Opened (newPool, Init
--                   and Close with the pools that they make)
--   Scheduler       internal/scheduler/scheduler.go: SyncAllUsers with the condition of its query,
--                   PruneOldData, CleanupOAuthStates, RunExtraction
--   Extractor       internal/extractor: Fetch (the loop of fetchJSON and fetchPage), Contests (the ids of
--                   the contests, and the functions of Go's packages that the parsers use), Json (the
--                   parsers of CodeChef, GeeksforGeeks, HackerRank, Codeforces, LeetCode and Code360)
--                   and Atcoder (the parser of AtCoder's page)
--   Web             internal/api/handlers.go: Calls (the Handlers record and the services that only the
--                   handlers call), ManualSync, Login (GoogleLogin, GoogleCallback, Logout), Validation
--                   (ValidateCalendarAccess), Me, Account (DeleteAccount), Platforms (GetPlatforms),
--                   Preferences (SavePreferences, verifyHCaptcha), Feed (ServeICalFeed and
--                   escapeICalText), Static (internal/api/static.go); Admin: internal/api/admin_handlers.go; Sessions: the ValkeyStore of
--                   internal/api/middleware.go
--   Config          config/config.go: Load
--   Server          cmd/server/main.go: the checks at the start, and the routes with what stands in front
--                   of each
--   Worker          cmd/worker/main.go: its HTTP handlers
--   Process         the lives of both processes: what main opens, starts and closes; where
--                   ListenAndServe fails, its goroutine ends the process before main goes on
--   Examples        concrete inputs
--
-- Operations of Go become functions of the state that give the state behind them; deferred functions
-- are applied to what the statements before them give. User ids, hits, lengths and times are natural
-- numbers; the failure counter of the Telegram client keeps the wrap-around of its int32. Loops over
-- attempts recurse on the attempts that are left, as many as the source makes. SplitMessage has the
-- length of its text as fuel, and one more; SyncAllUsers and reconnectWithBackoff take the number of
-- passes, or a list of what the passes meet, and theorems say how many are enough.
--
-- Parameters are AES-GCM and base64, MD5, JSON and the formats of time, net.SplitHostPort, the
-- database, Valkey, Google Calendar, the broker, and the replies of the platforms. Log output is left
-- out. In the notices of SyncUser the wording is left out and the values in them are kept, and the
-- goroutine that sends one is run when it is started; of other notices only the name is kept.
--
-- A handler is a program over the trace: http.Error with the return behind it leaves the program, and
-- another reply is its value. Signed cookies, OAuth, the tokeninfo of Google and hCaptcha are parameters too.
--
-- JSON is decoded by a parameter into the structs that the parsers declare; float64, time.Parse,
-- url.Parse and the router chi are parameters too. AtCoder's loops over rows and cells have the length
-- of their text as fuel, more than there can be pieces. The loops of the consumers take a list of what
-- their passes meet.
--
-- Not modelled: metrics, the level of the log, and the records by which cmd gives the pools to the
-- components. Of the queue, the semaphores of the consumers on the broker and of the in-memory
-- extraction consumer are left out; of DeleteAccount, the timeout of its goroutine, and that the
-- events are deleted side by side: they are deleted one after another.
pub mod Common
pub mod Config
pub mod Telegram
pub mod Limiter
pub mod World
pub mod Auth
pub mod Sync
pub mod Db
pub mod Extractor
pub mod Middleware
pub mod Queue
pub mod Web
pub mod Worker
pub mod Scheduler
pub mod Process
pub mod Server
pub mod Examples
