-- ===== src/Lib.antt =====
-- The warehouse accounting server, back/ of the repository: an HTTP server whose requests become tasks,
-- which change warehouses, products and invoices in a PostgreSQL database.
--
-- A request comes in at Session (back/components/webserver, BaseSession): it is routed, authenticated
-- and named as a task. The tasks (back/components/task_manager) build a chain of entries that a
-- Transaction executes (back/services/db_connector/source/transaction). An entry sends statements:
-- their options are serialized to SQL text with placeholders, and their values are bound beside it
-- (Query, for back/services/db_connector/include/db_connector/query and source/query). The
-- statements that are cached are kept under ids by the query manager (QueryManager), and the
-- connections come from a pool (Pool). What a warehouse holds is changed by
-- WarehouseItem::ChangeCount (Stock).
--
-- Files:
--   Base, Exec, Result   numbers, lists, exceptions as values, ufa::Result (back/instrumental)
--   Query.Schema, Values columns.h, tables.h, value_collector.h
--   Query.Text           a text as a list of pieces, so that a placeholder is told from the words
--   Query.Condition      condition.h: ToString, CollectParams, Equals
--   Query.Options        the four *_query_params.h, join.h: SerializeParametrized, Equals
--   Query.Build          QueryFactory::Create and the constructors of the four queries
--   Database             libpqxx and the server: a parameter that executes options with parameters
--   Stock                tasks/common/warehouse_item.h: ChangeCount; Stock.Moving the products move
--   Transaction          transaction.cpp, the entries, the retry loop
--   Pool                 connection_pool.cpp, each operation one step under its mutex
--   QueryManager         query_manager.cpp: GetOrSupportQueryId
--   QueryManager.Iterator queries_iterator_internal.h: the stored queries by descending id
--   QueryManager.Refresh connection.cpp: RefreshSupportedQueries; transaction_entry_factory.cpp: cached queries
--   Session              base_session.cpp: HandleRequest, Authenticate, ParseTaskIdentificator;
--                        Session.Params ConvertFromParams, Session.Serving HandleFile, Session.Mime
--                        GetMimeType, Session.Api HandleApi and a request with all that it calls
--   Documents            document_manager.cpp; Documents.Paths what it uses of std::filesystem::path
--   Authorizer           authorizer.cpp: ValidateToken, GenerateToken, over the JWT library;
--                        Authorizer.Users its users in the database
--   Database.Tables      initialize_tables.h: the columns of each table; Database.Select what SELECT answers
--   Json                 json_helpers.h over the JSON library
--   Tasks                base_task.h, and the transaction that a task runs; Tasks.Reading reads rows
--   Tasks.Filter         tasks/common/filter.h: ParseFilters
--   Tasks.Listing        what the lists and get tasks share (tasks/protocol/get_*): parsing, options, results
--   Tasks.Users, Products, Reports, Operations, Invoices, Warehouses, Items
--                        the columns, rows and answers of each list and get task;
--                        Tasks.Warehouses.Creating the insertion of a warehouse
--   Tasks.Goods          products_move, products_remove, products_create, with the entries of
--                        tasks/common that insert (Tasks.Invoices.Inserting for the invoice)
--   Tasks.Reports.Current reports_current, with the entries of tasks/common that it selects and
--                        inserts by; the file's text as its fragments
--   Tasks.Sizes          the sizes of the tables (get_*_size), by raw statements
--   Tasks.Refused        a task whose commit fails to serialize
--   Tasks.Accounts       authorization, create_user, get_current_user, on the authorizer
--   Tasks.Dispatch       task_manager.cpp, tasks_list.h: AddTask, GenerateTask
--   Tasks.Workers        workers_manager.cpp: the queue of tasks, each step what one thread does
--   Tasks.Typed          each row's objects by the names of the columns
--   Examples             concrete inputs, and a store in place of the database server
--
-- The state of a component is a record, and an operation a function from the state to an outcome and a
-- state (Exec). What was changed before a throw stays changed; the transaction's rollback is
-- modelled by its view, which only a commit publishes. Behind a failure to serialize the code makes
-- a new transaction, and Transaction has what that answers as a parameter: with it the next attempt has a new
-- view and the task's variables as the failed attempt left them, and what it throws leaves Execute.
-- In Tasks it always throws, since libpqxx keeps one transaction for a connection, and the old one is still
-- there; so no task sends the values of a query twice, which ToPqxx takes out of its collector.
--
-- The database is not part of the repository. What Stock relies on is the record ItemTable of
-- Stock.Items: the documented effect of SELECT, DELETE, INSERT and UPDATE on a table with the key
-- (warehouse_id, product_id), 32-bit counts, and foreign keys to Warehouse and Product, so that an INSERT is
-- said to succeed only where these are known. A transaction relies on begin, restart and commit
-- (Persistence), and its atomicity on FailedCommitKeeps. Examples.Store is a store for which the
-- first holds. The lists rely on SelectLaws of Database.Select, what PostgreSQL documents of a SELECT of
-- one table with number filters, each number in the range of its column's type; Examples.Tables is a
-- database for which it holds. The JSON library is the record Json, and the date provider is the interface DateProvider. The JWT library is the record
-- Jwt, and what the round trip of a token relies on is JwtLaws. What libpqxx answers to a statement that
-- a connection prepares is a parameter of QueryManager.Refresh; the iteration that it goes over takes
-- one stored query a step, so that it runs on their number. A step of Tasks.Workers is what one thread
-- does between two points where another one may go on.
--
-- The limit and the offset of a list are narrowed to 32 bits, as in SelectOptions.
-- Counts and ids are integers without a bound, since the sums and the ids are of 64-bit values; the range of the column is
-- a hypothesis where it is written. The pool's counters wrap at 32 bits and the ids at 64. The retry
-- loop and the connection loop run on fuel: with a limit of n attempts, n rounds are enough; with a
-- limit of 0 the source loops for as long as the database answers with serialization failures.
--
-- The file system is a parameter of Documents, with what exists, creating a directory and opening a file as
-- functions on its states, and so are the random strings. A request's target is a text whose characters
-- are bytes. What the JSON library parses and std::stol reads are parameters of Session.Api, as is how a
-- task is made: the tasks themselves are in Tasks. A file is created in 100 rounds, as in the source.
--
-- Not modelled: the sockets, the tracer, the settings and the configuration, which are input and output;
-- the service locator and the conversions of the date provider; the task that makes a report on
-- a period. How a raw
-- statement is executed is a parameter of Tasks.Sizes, and the hash of a password one of Tasks.Accounts.
pub mod Base
pub mod Result
pub mod Exec
pub mod Query
pub mod Database
pub mod Stock
pub mod Tasks
pub mod Transaction
pub mod Json
pub mod Documents
pub mod Pool
pub mod QueryManager
pub mod Session
pub mod Authorizer
pub mod Examples
