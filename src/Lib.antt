-- ===== src/Lib.antt =====
-- Verification of vfx, a WebTransport game server engine written in Go.
--
-- A gateway process holds the control plane. Clients queue for a match (internal/usecase/match);
-- tickets wait in a queue (internal/infra/matchqueue), from which the matchmaker takes groups that
-- the rules of internal/domain/match form.
--
-- - Base: names that all modules share, lists over the native numbers, a stable sort (Go's
--   sort.SliceStable, and sort.Slice where no two elements are equal), signed integers.
-- - Match: internal/domain/match. Match/Ticket is ticket.go (NewTicket, IsParty, PartyKey,
--   NormalizeParty, CompatibleWith), Match/Units and Match/Matcher are the two halves of matcher.go
--   (buildUnits; SelectGroup and groupFromSeed). Match/Platform is what they take from outside the
--   repository: float64 arithmetic and the order of uuids by their text, as parameters.
-- - Queue: internal/infra/matchqueue/inmem.go over the events of internal/domain/match/event.go.
--   Every method holds the mutex, so each is one step on the state; channels stand on a heap, and a
--   send on a closed channel or a second close is a panic. What a subscriber and the watcher
--   goroutine of Subscribe do are steps of their own, in any order. Queue/Changes is what all of them
--   can do to the map of tickets.
-- - Db: internal/infra/db/db.go. Work inside a transaction is a function on the tables that it sees;
--   a list of Booleans says which of the begin, the statements and the commit fail, and, after a commit
--   that fails, whether the database had committed all the same. Db/Triple is a logic of what such work
--   leaves behind, Db/Quiet is about transactions in which nothing fails.
-- - Social: the friend graph. Social/Graph is internal/domain/social/social.go and the tables,
--   Social/FriendRequests, Social/Friendships and Social/Blocks are the three repositories of
--   internal/infra/repository/social.go over the statements of schema/db/queries/social.sql, and
--   Social/Usecase is internal/usecase/social/social.go, with each of its calls as one step.
--   Transactions run one after another, as a serializable isolation would have it: what two that
--   overlap can do to each other at the default isolation of the database is not modelled. Nor are
--   foreign keys: an insert that violates one is a statement that fails.
-- - Group: internal/domain/group, the repositories group.go and membership.go of
--   internal/infra/repository over schema/db/queries/group.sql, and internal/usecase/group/group.go.
-- - Auth: internal/domain/player and its three repositories in internal/infra/repository over
--   schema/db/queries/player.sql and refresh_token.sql; Auth/Usecase is internal/usecase/auth/auth.go
--   over any token issuer and OIDC verifier. A login may race with first logins of others: what they
--   register becomes visible after its lookup. Auth/Stable is the logic of what all its transactions
--   keep.
-- - Leaderboard: internal/domain/leaderboard, the repository leaderboard.go over
--   schema/db/queries/leaderboard.sql and internal/usecase/leaderboard/leaderboard.go. Among entries
--   that rank alike the database lists them as it happens to read the rows, a parameter.
-- - Chat: internal/domain/chat, the repository chat.go over schema/db/queries/chat.sql and
--   internal/usecase/chat/chat.go over any broker; live subscriptions are not modelled. What a column of
--   type timestamptz keeps of a time is a parameter; the other parts store times unrounded, where the
--   database keeps microseconds.
-- - Storage: internal/domain/storage/file.go, the repository storage.go over
--   schema/db/queries/storage.sql and, in Storage/Usecase, internal/usecase/storage/storage.go over
--   any blob store. uint64 arithmetic wraps around.
-- - Room: one game of internal/usecase/room/match.go in Room/Match, over any plugin. A tick, a call
--   of Join, Leave or SubmitInput and a cancellation is one step; that a call comes while a tick waits
--   for the plugin is not modelled, nor are the errors of a session, which the source logs.
--   Room/Manager is internal/usecase/room/manager.go: a step relation on a list of threads, the calls of
--   FindOrCreate and the goroutines of the games, which interleave where the source holds no lock.
-- - Matchmaker: internal/usecase/match. Matchmaker is the pairing of a group (pair of matchmaker.go), over
--   an interface of the services it calls; Matchmaker/Loop is the loops around it (processMode, tick,
--   Run) and NewMatchmaker, Matchmaker/Tickets is match.go, which clients call. Matchmaker/Laws is what
--   pair relies on of the services, Matchmaker/Assignments is internal/infra/assignmentstore/inmem.go,
--   and Matchmaker/Local fills the interfaces with that store and the queue in memory, as in a process
--   that runs alone. processMode recurs on fuel: more than the tickets that wait in its mode are enough.
--   A queue call that comes between two calls of the matchmaker is not modelled.
-- - Valkey: internal/infra/matchqueue/valkey.go, the queue that replicas share: texts of tickets and
--   events over any JSON codec in Valkey, the methods as sequences of commands to any server in
--   Valkey/Operations, claims of several replicas in Valkey/Claims, and the goroutine of Subscribe in
--   Valkey/Streams and Valkey/Follows, over the stream of a ticket as entries with ids, which are
--   numbers. That keys expire while a client waits is not modelled.
-- - Rps: examples/rps/plugin/game.go, the sample plugin, over any encoder of its state. Rps/Rules
--   describes the game apart from the code.
--
-- Conventions. A string whose characters matter is a list of runes (Base/Texts), a
-- slash-separated path is cleaned as the package path does (Base/Paths). A time is a number of
-- nanoseconds since Go's zero time, which is 0, and a duration a signed number of them (time.Sub
-- saturates at 292 years, which is not modelled). A uuid is the number that its bytes stand for.
-- A Go map is an association list; where the source iterates over one, the order of iteration is
-- a parameter that the theorems hold for at every value. Loops are structural recursions over the
-- list that the source ranges over, but for processMode; the loops of Run and of the goroutine of
-- Subscribe range over what they receive. Counters of type int32 do not wrap below two thousand
-- million tickets, which is not modelled.
--
-- Not modelled: the transport, the RPC handlers and their converters, configuration and process
-- wiring, metrics, tracing and logs, the clients, the other Valkey backends and the cloud
-- backends, generated code.
pub mod Base
pub mod Match
pub mod Queue
pub mod Matchmaker
pub mod Valkey
pub mod Db
pub mod Social
pub mod Group
pub mod Auth
pub mod Storage
pub mod Room
pub mod Rps
pub mod Leaderboard
pub mod Chat
