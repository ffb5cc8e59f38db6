-- ===== src/Lib.antt =====
-- A verification library of the services of shahboard, a chess server in Go. The authentication
-- service lets users in, by a password, by Google or as guests, and gives them tokens. A user asks
-- the match service for an opponent; its engine pairs the waiting users and publishes a match
-- event on Kafka. An instance of the game service makes the game, keeps it in memory and in Redis,
-- and handles the players' events (moves, draw offers and claims, resignations, leaving and
-- joining); it publishes what it approves and how a game ends. The profile service keeps the
-- users' profiles and updates the ratings when a game has ended, and the chat service keeps the
-- messages of a game's two players. The gateway stands between all of these and the users: it
-- publishes what their WebSocket sessions ask for, and hands them the events that concern them.
--
-- Modelled, by file. Each file's first comment names the code it is about; a function keeps the
-- name of the source in snake case.
--
-- - Types, ObjectIds, AtomicIds, Decimal: types/*.go. A Go string is a list of bytes.
--   `strconv.FormatInt` and `ParseInt` are written out in decimal; printing a number n has the
--   fuel n + 1, which is more than it has digits.
--
-- - Chess: what is used of github.com/notnil/chess, as a record of operations (`ChessLib`) with
--   the documented behaviour that the proofs rely on (`ChessLaws`).
--
-- - Redis: the commands of Redis that are used (`RedisLib`, `RedisLaws`). Times to live do not
--   pass in the model.
--
-- - Game, with the children Creation, Moves, Draws, Ending, Histories and Encoding (the text in
--   the cache and `Decode`): gameservice/entity/entity.go and desc.go. Lifecycle, with Calls and
--   Runs, is the game as its two players see it, with rules of its own, which the methods are
--   shown to implement. A method that changes the game returns the new game, and each call is one
--   step, also of the methods that take no lock.
--
-- - GameService, with Cache (gameservice/service/cache.go), Manager (manager.go) and, for proofs,
--   Invariant, Moving, Blocked, Endings, Creation, Matched (the events of the match service as
--   inputs) and Answers; Queries has methods.go and the reads of the cache: the handlers of
--   gameservice/service/event.go and live.go, and the periodic check of manager.go. A handler is a
--   function from the state of the instance to the next one; time, random numbers and the answers
--   of Redis and Kafka are in `Env`. A request can be done, done with its answer lost, or refused.
--   A handler is one step: what other goroutines do between two of its statements is left out.
--
-- - Tracker, with Laws and Expiry: gameservice/service/connection.go. LiveGames, with Laws:
--   gameservice/service/live.go.
--
-- - Event, with Topics, Kinds, Publisher, Subscribers and Consumers (the messages, ConsumeClaim
--   and the consumer group, with Covering for the proofs): event/*.go and event/kafka. The JSON
--   text of an event is a parameter: the log holds the events themselves. Manager, with Stopping
--   and Listening: event/subscription.go, whose goroutines and callers are steps in any order; a
--   listener takes one event at a step. A handler that is given the nil event of a closed channel
--   panics, which ends the program.
--
-- - Elo: pkg/elo/elo.go, over a record of what is used of float64. Rating, with Laws:
--   profileservice/service/rating/rating.go, with the two tables of
--   profileservice/repository/rating.go. Rating.History, with Pages: a page of the history, from
--   the request of profileservice/delivery/http/rating.go to the database.
--
-- - Paginate, with Query: pkg/paginate. An SQL text is kept as its pieces, so that what stands in
--   a placeholder can be told; Asked puts the arguments in, and Conditions and Bound have the
--   proofs.
--
-- - Profile, with Orders: profileservice/service/user/user.go, with the table of
--   profileservice/repository/user.go; a transaction is one step. Info: the requests of
--   profileservice/delivery/http/user.go.
--
-- - MatchEngine, with Waiting and Matches: matchservice/service/engine.go. MatchService, with
--   Pairs: matchservice/service/service.go, as a step on each request, each request that is given
--   up and each tick of the engine.
--
-- - Auth, with Accounts, Tokens and Passwords: pkg/jwt/jwt.go and authservice. Signing tokens,
--   bcrypt and Google's validation are records of operations; the table of users is a list whose
--   identifiers and emails are unique.
--
-- - Gateway: wsgateway/ws. Its types (session.go, msg.go, game.go) and, by child: Registry
--   (manager.go), Subscriptions (events.go), SessionCache (cache.go, over RedisHashes, which has
--   the commands on hashes and sets with the laws that are relied on), Requests and Deliveries
--   (session.go: what a session does with its client's requests and with events), Cleaning
--   (cleaner.go, manage.go and the end of a session) and Instance (server.go: an instance, and its
--   steps on every kind of input). The goroutines of an instance are a list of inputs in any
--   order; each step meets its own answers of Redis, Kafka and the game service. Their children
--   Caps, Published, Views, Broadcast, Delivered, Kept, Lives, Cached, Leaving, Stopping and
--   Queues hold the proofs.
--
-- - Chat, with Messages: chatservice/entity/chat.go and chatservice/service.go/*.go. The JSON text
--   in the cache is a record of its parts.
--
-- - Delivery, with Grpc and, for proofs, Resigning and LiveGame: pkg/middleware,
--   gameservice/delivery and the gateway's client in wsgateway/services. A reply over HTTP is its
--   status or what it carries.
--
-- - Bot, with PubSub, Talk and, for proofs, Choosing and Lockstep (with its child Start):
--   client-go/bot. The choice at random, the room in the queue to the gateway, and what a client
--   uses of the chess library besides (`Client`, with `ClientLaws`) are parameters. A loop of
--   three attempts has three steps of fuel, which are all that it makes.
--
-- - Examples: a small chess library and a small Redis that keep the laws, and the theorems applied
--   to them. Base: shared names, tests, lists, association lists for Go's maps, and signed
--   integers with the wrap-around of int64.
--
-- Not modelled: the connections over HTTP, gRPC and WebSocket, the JSON text of messages and
-- events, the client library of Kafka, what the database does with an SQL text, the signing of
-- tokens, logging and configuration, which call libraries; the scans of the game cache; the
-- client's connection and the command lines.
pub mod Base
pub mod Types
pub mod Decimal
pub mod ObjectIds
pub mod AtomicIds
pub mod Chess
pub mod Paginate
pub mod Redis
pub mod RedisHashes
pub mod Event
pub mod Elo
pub mod Game
pub mod Tracker
pub mod LiveGames
pub mod GameService
pub mod MatchEngine
pub mod MatchService
pub mod Rating
pub mod Profile
pub mod Chat
pub mod Auth
pub mod Gateway
pub mod Delivery
pub mod Bot
pub mod Examples
