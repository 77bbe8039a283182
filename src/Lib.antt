-- ===== src/Lib.antt =====
-- A payment gateway (app/): orders of merchants, UPI payments for them, and the callbacks of the bank
-- that settle a payment in a double-entry ledger.
--
-- How the files correspond to the program:
--   Prelude           shared notation, integers, tables as lists of rows and their laws
--   Models            app/models and alembic/versions/0001_initial.py: the rows of the tables, the
--                     database as a record of tables, and what its schema refuses at a commit
--   Core              app/core: Config is config.py, Security is security.py with the digests and the
--                     JWT library as parameters; Redis and Logging are the parts of redis.py and
--                     logging.py that compute something
--   Session           app/db/session.py: a request's session as a monad of state and exceptions, with
--                     `commit`, `rollback` and the queries' `scalar_one`; Session/Triples has the
--                     rules for what an action does
--   Services          app/services, one module for each file; the proofs stand in the modules below:
--                     StateMachine (state_machine.py), Ledger and Accounts (ledger.py), Order
--                     (order.py), Payment (payment.py), Webhook (webhook.py). Books says when balances
--                     and entries agree, Postings what a transaction has in the
--                     ledger, Addresses whose accounts its entries are on, Earnings what a merchant
--                     has there, Mirror which transactions an order has, and History runs requests
--                     one after the other
--   Middleware        app/middleware: Idempotency is idempotency.py, one Redis command at a time, so that
--                     requests interleave; Redis is the interface of the store it uses;
--                     RateLimit is rate_limit.py, with its counters as an interface; Stack is
--                     request_id.py, and the middleware in the order of app/main.py around the
--                     endpoints, for requests that come one after the other
--   Api               app/api: Auth is deps.py; Merchants, Orders, Payments and BankCallback are the
--                     files of app/api/v1, with JSON as a parameter; Answer is what an endpoint replies
--   Schemas           app/schemas: which bodies of requests the validators let through, and the columns
--                     that take what they let through
--   Workers           app/workers/tasks.py: Delivery is the task that notifies a merchant, with its delay
--                     and its attempts; Reconciliation is the sweep for stuck intents
--   Application       app/main.py and app/api/v1/router.py: which endpoint a request reaches and what
--                     status it gets; Books has the books after any requests, Refusals what a refused
--                     request stores
--   Scenario          one payment run on concrete rows, and instances of the theorems
--
-- Conventions. Money is a number of ten-thousandths, the unit of `Numeric(18, 4)`. A UUID is the
-- number that it stands for; its text is a parameter of the code that prints it. What the program
-- draws at random or reads from the clock is an argument of the operation, and so is whether the
-- broker takes a task. The `FOR UPDATE` locks
-- serialise the transactions on a row, so a request runs as one function from the stored database to
-- the stored database. A loop is a recursion on the rows. Only the
-- runs of a delivery have fuel, one for each attempt; deliveries-Course shows that it is enough.
-- No key of the stores that the middleware uses expires within a run.
--
-- Not modelled: the HTTP framework, the set-up of the log, the connection pools, the schedule of the
-- workers, the environment of the migrations, the tables'
-- foreign keys and creation times, and the table upi_vpas, which no code uses.
pub mod Prelude
pub mod Models
pub mod Core
pub mod Session
pub mod Services
pub mod Api
pub mod Application
pub mod Middleware
pub mod Schemas
pub mod Workers
pub mod Scenario
