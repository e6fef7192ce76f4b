-- ===== src/Lib.antt =====
-- fasti-kit: the accounts, the login sessions, the outbox and the dead letters of a FastAPI service.
--
-- The program. A request opens a session of the database (core/database.py), and a service
-- (auth/services, user/services, core/dead_letter/service.py) composes methods of the repositories
-- (user/repositories, auth/repositories, core/outbox/repository.py, core/dead_letter/repository.py).
-- A method runs in a transaction, which commits all of its statements or rolls them back. What has to
-- reach a worker is staged in the outbox by the same transaction, and the relay (core/outbox/relay.py)
-- hands the pending events to the task queue. A job that fails for good becomes a
-- dead letter, whose retry goes through the outbox again.
--
-- The files.
--   Base               tests, lists, and tables as lists of rows with the laws of the SQL statements
--   Exceptions         core/exception.py, auth/exceptions.py
--   Json, Model        JSONB values; the rows and entities of every table
--   World              core/database.py: the state (tables as committed, as this transaction sees
--                      them, as the replica holds them; sticky flag; clock; random numbers) and
--                      the actions over it; Keeps and Valid hold the invariant and its rules
--   Routing            core/database.py: the engine of a statement and the failover to the primary, on
--                      a session of its own with what it has pending and written; a text that
--                      get_bind does not take for a write writes nothing there
--   Users              user/repositories/user_repository.py
--   Sessions           auth/repositories/refresh_session_repository.py; Rotation and Interleaving
--                      study the claim of rotate
--   Tokens             auth/repositories/revoked_token_repository.py
--   Accounts           auth/repositories/account_repository.py; Links is on the used tokens, Ends on
--                      the sessions and tokens that a write ends
--   Outbox, Relay      core/outbox/repository.py; core/outbox/relay.py and core/queue.py, with the
--                      loop of the relay in Relay/Loop
--   Worker             core/worker/tasks.py, core/dead_letter/hook.py
--   Health             core/health.py
--   Startup            core/startup_checks.py, the lifespan of main.py, and the closing of the engines
--                      and of Redis
--   DeadLetter, DeadLetterService   core/dead_letter/repository.py and service.py;
--                      Retry is on the way back to the queue
--   Env                what the services take from libraries and settings, as one record
--   AuthService        auth/services/auth_service.py, with children on login and refresh
--                      and Leaving, logout and close_account, which write to Redis first;
--                      LoggedOut is on the tokens after a logout
--   Security           the other files of auth/services
--   UserService        user/services/user_service.py, user/schemas/user_schema.py
--   Blocklist          auth/blocklist.py and is_token_revoked of auth/dependencies.py
--   Http               auth/dependencies.py, user/dependencies.py, and the routers of auth, user and
--                      core/dead_letter
--   Problem            core/problem.py, auth/errors.py
--   Caching            core/cache.py
--   Settings           core/setting.py
--   Middleware         core/middlewares and their order in main.py; Trace has what an application
--                      does while it serves a request, Stack what the server gets of it
--   MigrationLock      core/migration_lock.py
--   Safety, Seeding    core/safety.py, scripts/seed.py
--   Generators         scripts/_boilerplate.py and the generators of scripts/create_*.py. Names, Fields,
--                      Init, Imports, Pyproject and Router have the helpers, Layers the text of each
--                      layer, Files and Project what becomes of the files, Migration
--                      scripts/create_migration.py
--   Text               the methods of Python's `str` that the program calls
--   Api                any sequence of requests and cleanups, without the runs of the relay
--   Atomicity          the writes of several statements
--   Examples           a concrete database, with runs of the code on it
-- The children named Sound hold the lemmas on one component's part of the invariant.
--
-- The correspondence. A method of a repository or a service is the function of the same name; an
-- `async` method is an action, a function of the state that returns its result or its exception and
-- the new state. A UUID is a number, a time is the number of its microseconds. The k-th call of
-- `datetime.now` returns `clock k`, and the k-th random draw is `random k`; nothing is assumed of
-- either, so a draw may collide with a key in use, and the insert then fails as in Postgres. The
-- database is given by the meaning of the statements that the code issues: unique keys, the foreign
-- key and its cascade, NOT NULL. A commit may fail; other faults of the connection are not modelled,
-- nor are the lengths of columns, the identity map of SQLAlchemy, and isolation beyond what
-- Sessions/Interleaving says: there each step is one statement, of any transaction. bcrypt, PyJWT
-- and `uuid` are the fields of `Env`, and SAQ's `enqueue` is a function of the job to the error that
-- it raises, if any; all are arbitrary.
--
-- Redis is a record of the commands that the blocklist or the cache sends, with laws that say what each leaves
-- set at a later time. Each call reaches Redis or not; a pipeline is taken to reach it whole or not
-- at all, and no key is evicted. The milliseconds of a time to live are exact, where Python goes
-- through a float. `is_token_revoked` reads the clock once where the source reads it for each
-- statement, and an invalidation reads the sets of its tags and deletes at one time. authx is a record
-- of functions on the headers and the cookie of a request; for each check of a token it asks its
-- callback, `is_token_revoked`, which may write to Redis, and decides on the answer. The guards of a
-- route are evaluated before its session of the database opens, and a request is parsed already.
--
-- A file that a generator edits is its text, the list of its lines, or of the statements that `ast` finds
-- in it; `ast.parse`, `tomllib` with `_pyproject_lists`, `ipaddress`, `repr` and Alembic are parameters.
--
-- Recursion is on lists and texts, or on the number of rounds. The loop of `_build_unique_user` gets one
-- round more than there are used emails: each of these can hold up one round, if no two builds in these
-- rounds have one email.
--
-- The stack of middlewares is run on an application that is given by its events, statements of the
-- database and messages, and by how it ends; the laws of Starlette's headers are those of reading a
-- header after a write. The server takes every message that ASGI allows. A process in MigrationLock is
-- one that takes the lock once and ends.
--
-- Not modelled: the rate limits, paginated lists, the parsing of requests, the
-- sending of mail, the servers, the commands around the generators,
-- the generators of tests and factories, the DETAIL of an error of Postgres, and the migrations
-- themselves.
pub mod Accounts
pub mod Api
pub mod Atomicity
pub mod AuthService
pub mod Base
pub mod Blocklist
pub mod Caching
pub mod DeadLetter
pub mod DeadLetterService
pub mod Env
pub mod Examples
pub mod Exceptions
pub mod Generators
pub mod Health
pub mod Http
pub mod Json
pub mod Middleware
pub mod MigrationLock
pub mod Model
pub mod Outbox
pub mod Problem
pub mod Relay
pub mod Routing
pub mod Safety
pub mod Security
pub mod Seeding
pub mod Sessions
pub mod Settings
pub mod Startup
pub mod Text
pub mod Tokens
pub mod UserService
pub mod Users
pub mod Worker
pub mod World
