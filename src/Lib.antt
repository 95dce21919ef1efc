-- ===== src/Lib.antt =====
-- The order service of Partivo: orders of event tickets, their bills, refunds and tickets, and the
-- messages that other services send and receive about them.
--
-- The program has five layers. `internal/service` answers the calls of gRPC and of HTTP: it reads
-- who calls from the metadata, checks what the request holds, and runs one operation of the logic,
-- those that change data in a transaction. `internal/logic` holds the rules: the life of an order
-- (`recalculateOrderStatus`), of its items, of bills, of refunds and of tickets. It reads and
-- writes MongoDB through `internal/dao/mongodb`, and it puts messages for other services into an
-- outbox, which `internal/worker/outbox_processor.go` sends. `cmd/consumer/handlers` handles the
-- messages of the payment service, each in one transaction (`internal/db/mongo_transaction.go`).
--
-- Files and the code they model:
--   Constants      internal/constants: the statuses, their texts and the parsers of the texts
--   Models         internal/models, and the joined documents of internal/dto
--   Platform       the world around the program, as parameters, and the monad of its methods
--   Helper         internal/helper/helper.go: the arithmetic of decimals
--   Repository     internal/dao/repository: the options of an update, and what they set
--   Dao            internal/dao/mongodb: Orders, Bills (with the audit log), Outbox, Tickets
--   Logic          internal/logic: Audit (audit_builder.go), Publisher (the event publishers), and
--                  Checkout, Orders, Recalculate, Refunds and Listing (orders.go), Bills (bill.go),
--                  and Tickets with Tickets.Types (tickets.go)
--   Service        internal/service: Replies (the responses), Orders (order_public.go),
--                  OrdersAdmin, Bills and Tickets (the files of those names), Tickets.CheckIn,
--                  Server, the calls behind the interceptors of internal/middleware/grpc, and
--                  Export, the route of the export behind internal/middleware/http
--   Limiter        internal/limiter: the buckets of users and the policies
--   Consumer       cmd/consumer/handlers and internal/db/mongo_transaction.go
--   Worker         internal/worker/outbox_processor.go, and Expirer (ticket_expirer.go)
--   Pagination     pkg/pagination/page.go, and Cursor (cursor.go)
--   Base           names and lemmas that all share
--   Examples       documents to run the model on, and the theorems at concrete arguments
-- Child modules hold the proofs about their parent, and are named for what they prove.
--
-- A method is a function from the world, which is the documents and the number of outside calls so
-- far, to an outcome and the world after it. An outcome is a value, an error or a panic of Go; what
-- a method has changed before an error stays changed, up to the transaction around it. A function
-- of the source keeps its name, in lower case and with underscores, and its guards and calls their
-- order. A long method is split where it branches, and the parts are called in the order of the
-- source: `recalculate_by_status` is the `switch` of `recalculateOrderStatus`, with one function
-- for each case; `check_order_item_status` and `set_order_item_status` are the steps of
-- `_updateOrderItemStatus`.
--
-- The server is a parameter, the record `Mongo`, for which `IsDocumented` says that a collection
-- is read and changed as a list of documents, that a sort permutes them, and that a transaction
-- takes effect as a whole or not at all. A commit that reports an error is taken not to have taken
-- effect, though a driver may also report one for a commit whose effect is unknown. Which calls
-- fail, the clock, the supply of IDs and serial numbers, the event service, the tokens, the queue
-- and the arithmetic of `math/big` and of Decimal128 are the record `Env`, of which nothing is
-- assumed.
--
-- The codec of page tokens, JSON and base64, is the record `Codec`; `IsCodec` says that it reads
-- back what it writes. The three concurrent reads of `GetOrderDetails` take place in the order
-- that a `Schedule` gives, with what others write between them, since no transaction is around
-- them. The arithmetic of float64 in the limiter, and of the numbers of its Lua script, is the
-- record `FloatArithmetic`, of which nothing is assumed; the number of pages is computed with the
-- rounding of float64 written out. An answer with a status of gRPC is a value of `Answer`, beside
-- the error and the panic that an operation of the logic may end with.
--
-- Choices: an ObjectID is a number, a time is a number of nanoseconds since 1970, and the JSON
-- text of a message is the map that it spells. Counts that are never negative are natural numbers;
-- a uint32 is negated modulo 2^32, an offset wraps at 64 bits, and the numbers of a page of orders
-- wrap at 32. Where a loop reads the clock for every document of one bulk write, the model reads
-- it once. All loops of the program run over lists, and those of the workers over the number of
-- ticks that come, so no fuel is needed; only the rounding of float64 has a bound on its halvings,
-- 11 for an int64 and 128 for a quotient, which is enough for every int64.
--
-- Not modelled: the grants of the relation service at the end of `AddOrder` and `CreateBill`, the
-- retries that the driver makes of a transaction, logging, the timer of the interceptor of the
-- timeout, whose effect is that outside calls fail, the gateway and the validation of requests,
-- which are generated, the clients of other services, and all set-up. The packing of a response
-- into Any is taken to succeed, and the year of an export is not below 0.
pub mod Base
pub mod Constants
pub mod Models
pub mod Platform
pub mod Helper
pub mod Repository
pub mod Dao
pub mod Logic
pub mod Consumer
pub mod Worker
pub mod Pagination
pub mod Service
pub mod Limiter
pub mod Examples
