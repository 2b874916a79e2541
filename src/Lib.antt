-- ===== src/Lib.antt =====
-- digital-square: the backend of a real-time chat, written in Go under backend/.
--
-- A message goes this way. A client of backend/internal/handler/websocket_handler.go sends a text.
-- `SendMessage` of backend/internal/service/message_service.go checks and escapes it, appends it to
-- the write-ahead log of backend/internal/wal/wal.go, acknowledges it, and lets a goroutine push it
-- onto the Redis list of backend/internal/broker/redis_broker.go. Every minute the batch writer
-- moves the log into the table of backend/internal/repository/message_repository.go. Accounts are
-- those of backend/internal/service/auth_service.go over backend/internal/repository/
-- user_repository.go: a registration or a login gives a cookie with a token, which the middlewares
-- of backend/internal/middleware ask for before a request gets to its handler.
--
-- The files, with the functions of the source in brackets:
--   Base, Base/Tests, Base/Lists, Base/Pairs: Boolean tests, lists by native numbers, permutations,
--   shared lemmas.
--   Errors, Action: `(value, error)` results, and code that changes a state and may fail. An action
--   that fails also gives the state that it leaves.
--   Codec: json.Marshal and json.Unmarshal, a parameter. Scanner: bufio.Scanner as wal.go uses it.
--   Models: backend/internal/models. Http: what a handler or middleware answers.
--   Wal: wal.go [NewWAL, Write, ReadAll, GetAllEntries, Cleanup, Close]; each system call has an
--   argument that says whether it fails and how much a failed write leaves. Wal/Contents: the log
--   as a list of entries. Wal/Opening: opening it again. Wal/Cleanup: all paths through Cleanup.
--   Wal/Faults: what single faults do.
--   Redis: the calls of go-redis, a parameter, with the laws of lists, counters and sets.
--   Broker, Broker/Laws: redis_broker.go [CacheMessage, GetRecentMessages, MarkMessageAsDeleted].
--   Broker/Race: the last of them between other calls.
--   Repository: message_repository.go; gorm and PostgreSQL are the parameter `MessageTable`.
--   Repository/Order: the order of the rows that a query finds.
--   Html: html.EscapeString.
--   MessageService: message_service.go [SendMessage, GetRecentMessages, GetMessagesBefore,
--   DeleteMessage, processBatch]. Below it, Send, Recent, Delete, Unsaved, Batch and Ticks are about one
--   operation each, Writer about the loop of StartBatchWriter, Refused and Stuck about a
--   batch that the table refuses; World has the steps of clients, goroutines, the batch writer and crashes in any
--   order; Invariant and Durability, with its children, are about all runs of these steps.
--   RateLimiter, RateLimiter/Window: middleware/rate_limiter.go.
--   Auth, Auth/Tokens: backend/internal/utils/jwt.go and middleware/auth_middleware.go; golang-jwt
--   is the parameter `Jwt`.
--   MessageHandler, MessageHandler/Masking: handler/message_handler.go [GetBefore, filterMessages].
--   MessageHandler/Client: loadOlderMessages of frontend/src/hooks/use-websocket.tsx, which asks for
--   one page after the other. Pages, Scroll, Paging and SentIds are about what it gets.
--   WebSocketHandler, with Broadcast, Order, Events, Closed and Connections below it:
--   handler/websocket_handler.go [the two request handlers, the broadcasts, sendInitialMessages,
--   connecting and removing clients];
--   WebSocketHandler/Session [HandleWebSocket, handleClient] and, below it, Lifetime.
--   Text, Base64, Sscanf, Regex: what the program uses of strings, strconv, encoding/base64, fmt and
--   regexp; Base64/RoundTrip and Regex/Matching say what is right about them.
--   Hash, Hash/RoundTrip: backend/internal/utils/hash.go; argon2.IDKey is the parameter `Argon`.
--   UserRepository, UserRepository/Lookups: user_repository.go; gorm and PostgreSQL are the parameter
--   `UserTable`. UserRepository/History: one change of the rows as a step, and what steps keep.
--   AuthService: auth_service.go [Register, Login, GetAllUsers, BanUser, BanBulk,
--   validateRegisterInput], with Input, Register, Steps, Refused, Login, Returning and Ban below it.
--   AuthHandler, AuthHandler/Cookies: handler/auth_handler.go. AdminHandler, AdminHandler/Answers:
--   handler/admin_handler.go.
--   Config, Config/Defaults: backend/internal/config/config.go. SecurityHeaders:
--   middleware/security_middleware.go. Routes, Router, Router/Guards:
--   backend/cmd/server/main.go, the whole way of a request. Router/Accounts, Router/Sessions,
--   Router/Privilege: requests one after the other. Startup, Startup/Restart: its start, with
--   backend/internal/database/db.go and backend/pkg/logger/logger.go.
--   Seed, Seed/Again: backend/cmd/seed/main.go.
--   Testutil, Testutil/Fixtures: backend/internal/testutil [fixtures.go, helpers.go and
--   service_wrappers.go, with the rows of testutil.go].
--   Tests: in-memory stand-ins that keep the laws of the parameters, and runs on concrete inputs.
--
-- No definition has fuel: every loop of the source that is modelled runs over a list or a text. The
-- line buffer of bufio.Scanner is 64 KB, a message has at most 5000 characters, the cache 100
-- messages, and a page 50. The mutexes of the source make its operations the steps of
-- MessageService/World; a tick of the batch writer is two steps. A write to the log either puts the
-- whole line there or nothing in World; Wal/Faults is about the writes between.
--
-- A read of a web socket session carries what the other goroutines do to the server until it ends,
-- so a session is one list of reads. A panic is an error that no function looks at until gin's
-- Recovery answers it.
--
-- A power failure leaves of the log what was synced. Times are in nanoseconds, and a column of
-- PostgreSQL keeps whole microseconds of them.
--
-- Not modelled: a rate limiter with a negative limit or duration, the users that a query of
-- messages preloads, the directory entry of a renamed file that a power failure may lose, log
-- lines, timings, what gorm, zap and go-redis do when they connect, the CORS middleware (the
-- requests of Router are those that it lets through), the encoding of JSON and the text of a
-- cookie, pings and deadlines but for the end of a read, the in-memory database and cache of the
-- Go tests, and the frontend but for the client that scrolls back.
pub mod Base
pub mod Errors
pub mod Action
pub mod Codec
pub mod Models
pub mod Scanner
pub mod Wal
pub mod Redis
pub mod Broker
pub mod Repository
pub mod Html
pub mod MessageService
pub mod Http
pub mod RateLimiter
pub mod Auth
pub mod MessageHandler
pub mod WebSocketHandler
pub mod Testutil
pub mod Text
pub mod Base64
pub mod Sscanf
pub mod Hash
pub mod Regex
pub mod Startup
pub mod UserRepository
pub mod AuthService
pub mod AuthHandler
pub mod AdminHandler
pub mod Config
pub mod Seed
pub mod SecurityHeaders
pub mod Routes
pub mod Router
pub mod Tests
