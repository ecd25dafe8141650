-- ===== src/Lib.antt =====
-- Tradesphere: an exchange in Go, of four services around Kafka and PostgreSQL. The order service
-- accepts orders, the matching engine matches them and writes trades and events to an outbox, the
-- portfolio service reserves funds and settles trades, and the websocket service passes events on.
-- This library models the parts that decide what is traded and what is owed.
--
-- pkg/money/money.go: Money. Decimal has parseDecimal, formatDecimal, multiplyScaled and their
-- wrappers, Json the JSON methods; Digits, RoundTrip and Multiply have the proofs. Money and Quantity
-- are int64, which Int has with their wrap-around. Text has the functions of the package strings
-- that the source calls.
--
-- services/matching-engine/model: Model. An object that the source holds by a pointer stands in a
-- store, at an address, so that the engine's map and the books share it as the source does.
--
-- services/matching-engine/orderbook/orderbook.go: Heap has the slices as heaps, Matching the two
-- Less methods and the matching loop, OrderBook the book with ProcessOrder, RestoreOrder and
-- Snapshot. The four matching loops are one loop under a parameter, Rules. OrderBook/Invariant
-- says when a book is valid; Buy and Sell are about the four loops, Run, Process and Rests about
-- ProcessOrder. The loop runs on fuel: the length of the heap and two more rounds, which is enough
-- since every round either shortens the heap or fills the order (Matching/Loop). Matching/Reference
-- describes matching without heaps and shared objects, on a list in the order of priority; Listed
-- and Simulation compare the code with it, and OrderBook/Reference with OrderBook/Description, which has only
-- prices, times and quantities.
--
-- services/matching-engine/engine/engine.go: Engine, with the maps of books and orders (Dict), every
-- method of the engine; Status, Books, Cancel, Recover, Filling, Restore and Settled have the proofs.
-- Every method holds the mutex, so it is one step. The order in which Go visits a map is a parameter.
--
-- Sql: code on the tables of a database. A Session has the tables and the number of calls so far; any
-- call can fail, by a parameter, and a transaction that does not commit leaves no trace. Query has
-- WHERE, ORDER BY and LIMIT. Transactions are taken one after the other, as their row locks make them.
-- Kafka: the loop that every consumer runs.
--
-- services/matching-engine: MatchingService. Database has the tables and the statements of
-- database/db.go, Consumer the two handlers of commands in kafka/consumer.go with the engine's memory
-- beside the tables, Outbox the statements on the outbox, Publisher the functions of
-- kafka/producer.go, Recovery and Startup what main.go makes of the tables at the start. Atomic,
-- Persist, Effect and Rollback have the proofs about commands; Rows, Delivered, Delivery, AtLeastOnce,
-- Progress and Retry those about the publisher.
--
-- services/portfolio-service: Portfolio. Database has the tables, each a function of its key, and the
-- statements of database/db.go in the order of the source. Consumer has the transactions of
-- kafka/consumer.go. Handlers, Release and Validate have the three handlers of main.go that the order
-- service calls, Pages the pages of a portfolio. Ledger has the abstract view of the consumer, a
-- ledger without transactions; Atomic, Settlement, Cover, Effect, Positions, Owner and Route
-- have the other proofs.
--
-- services/order-service: OrderService. Requests has the requests and a record of operations for what
-- is reached over the network, Handlers createOrderHandler and orderActionHandler with what they
-- call. Create, Conserve and Cancel are about a handler by itself, Reservation about the handlers of
-- portfolio-service that it calls, and Backend puts these behind it. Authenticated puts the
-- layers of pkg/auth before them. Producer has kafka/producer.go.
--
-- pkg/auth: Auth, with the tokens of jwt.go and the layers RequireAuth and RateLimit of middleware.go.
-- What is called of the library of tokens and of the token buckets are the records Jwt and Bucket;
-- Tokens, Limits and Layers have the proofs.
--
-- services/websocket-service: WebsocketService. Hub has the clients and the broadcast, Events the
-- messages and processEvent, Connections the steps by which clients come and go, which interleave. A
-- broadcast writes without the mutex: what others do to the hub meanwhile is a parameter.
--
-- Parameters: the values of uuid.New and time.Now, the order of map visits, the failures of the
-- database, of the broker and of connections, strings.ToUpper, uuid.Parse, json, JSON web tokens, token
-- buckets, the order of returned rows and of texts in PostgreSQL, what others commit between the two
-- queries of a portfolio page, and the functions that the services call but the repository has not:
-- InsertOrderWithOutbox, EnqueueCancelCommand, and the database of the websocket service. A write to
-- Kafka that returns an error may have reached the topic all the same.
--
-- Not modelled: metrics and tracing, the start of the processes but for the recovery of the matching
-- engine, the publisher of the order service, which the repository has not, the frontend, and the foreign
-- keys from trades to users.
pub mod Auth
pub mod Base
pub mod Dict
pub mod Engine
pub mod Heap
pub mod Int
pub mod Kafka
pub mod Matching
pub mod MatchingService
pub mod Model
pub mod Money
pub mod OrderBook
pub mod OrderService
pub mod Portfolio
pub mod Query
pub mod Sql
pub mod Tests
pub mod Text
pub mod WebsocketService
