-- ===== src/Lib.antt =====
-- The model of OneBalance, crates/theone-balance: a worker that stands before the APIs of several
-- providers, holds a pool of API keys for each, and sends a request with the best key, failing over
-- to the next one.
--
-- A request comes to `forward` of handlers.rs. It is authenticated (util.rs), the keys of its provider
-- are read through two caches from the database (d1_storage.rs), and the loop over the keys builds a
-- request for each (handlers.rs, gcp.rs), sends it with retries, has an error analysed
-- (error_handling.rs), and writes what it learned of the key back in the background (d1_storage.rs).
-- A handler cleans up keys that fail for good, and the pages of web.rs administer the keys.
--
-- The files, by the part of crates/theone-balance/src that they model:
--   Errors      error_handling.rs and the error types of models.rs: analyze_google_error,
--               key_is_invalid_from_error and analyze_provider_error, under these names.
--   Storage     d1_storage.rs, dbmodels.rs and state/strategy.rs, one function for each of the
--               source's, of the same name. Model has the records, Platform what the code calls and
--               does not implement (D1 behind toasty, the two mini_moka caches) with
--               hybrid/d1_executor.rs and hybrid/sql_converter.rs in Binding; Health, Metrics,
--               Cooldowns, Reads, Admin and Cleanup have the functions. Platform/Lawful states the
--               documented behaviour that the theorems rely on, and Memory is a platform that has it.
--               Invariant has what the operations keep, for any guard on rows and cached keys that
--               meets its Rules; Pool is the abstract view of the table, with a step for each call.
--   Translate   gcp.rs with the request and response types of models.rs.
--   Gateway     handlers.rs and util.rs: Auth, Retry (execute_request_with_retry), Target (the
--               request for a key), Failover (the loop of forward) and Forward (the handlers); Worker
--               has the scheduled cleanup of lib.rs, and Worker/Fetch what it makes of the race of
--               every request against the timer, the race being a parameter; Native the request of a key test (request.rs). Target/Headers
--               takes the headers of the worker as an interface; Forward/Calls reads a request as a
--               sequence of storage calls.
--   Queue       queue.rs: the consumer of state updates, over the storage functions, and Object the
--               consumer of the build with the durable object, which sends each update to it.
--   Manager     the durable object that holds the keys in the other build: Kv is state_do_kv.rs and
--               Sqlite is state_do_sqlite.rs, each with the routing and the five operations, over
--               its storage as a parameter. What the consumer does to the first is in
--               Queue/Object/Reaches; nothing is proved of the second, whose rows come in an order
--               that SQLite does not promise.
--   Web         the pager, the links and the times of web.rs; Form has its two form handlers and
--               testing.rs; Session has the login, the guard PageLayout and the pages behind it;
--               Controls the number of pages, the buttons and the order of the columns. Pages has
--               the markup, one function for each of the source's, as the stream of tags and texts
--               that maud writes (Markup); Fields reads off its forms and their controls, Exposed,
--               Links and Home where it leads to.
--   Sync        bin/cli/: the command that copies the active keys of one deployment to another. How
--               wrangler ends and what the network answers are parameters. Arrives reads its posts
--               with the form of the other deployment.
--   Prelude     numbers, lists, texts and results that the parts share.
--
-- Conventions. A function that reads or writes the database or a cache takes the world (the
-- database and the two caches) and returns its result with the world; an error keeps what was
-- written before it. A read of the clock, of a random number, of a variable or of an answer is an
-- argument. Integers wrap at their width, as in the release build; a value bound for the database
-- is cast to 32 bits, as hybrid/sql_converter.rs does. Success rates stay in thousandths: between 0
-- and 1000 the detour of the source over floats gives the same number. JSON is read and written by
-- parameters. `execute_request_with_retry` runs on fuel, one more than the attempts allowed, and is
-- proved to return always.
--
-- The orders in which a HashSet gives the keys that are added and a HashMap the groups that the command
-- posts are parameters.
--
-- Background tasks run after the loop, in the order in which they were started; the worker may
-- interleave them with other requests, which the invariant of the storage component, kept by each
-- operation, allows for.
--
-- The storages of the durable objects, the requests sent to them, new ids and the two files that the
-- layout includes (style and script) are parameters. A read of the KV storage changes its state, so that
-- it may fail once and succeed later. The stores are written against a field
-- last_used that the record of keys lacks; the model of them has it.
--
-- Not modelled: the routing table of axum and the deserializer of repeated query parameters, the
-- parser of the command line, logging, the registration of toasty's schema (hybrid/), and the
-- libraries mini-moka and toasty, whose calls are parameters.
pub mod Prelude
pub mod Errors
pub mod Storage
pub mod Translate
pub mod Gateway
pub mod Queue
pub mod Manager
pub mod Sync
pub mod Web
