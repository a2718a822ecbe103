-- ===== src/Lib.antt =====
-- issueflow: the services of an issue tracker, a NestJS program over a PostgreSQL database. Paths
-- in this library are paths of the repository; a file's comment leaves out their first `src/`.
--
-- The parts, and the files that model them:
--   * src/common/enums, src/*/entities: the enumerations and the tables' rows. Enums, Entities.
--   * the database, TypeORM's transactions and the exceptions. Store: `Db` holds one list of rows
--     for each table, deleted rows included; a service method is an `Exec`, which takes a database
--     to a result or an exception and a database.
--   * src/audit-log: the append-only log that all services write. Audit.
--   * src/users, src/projects: Users, Projects.
--   * src/tickets/tickets.service.ts: Tickets, by its operations Base, Create, Update, Remove and
--     Cascade; what comments, dependencies, attachments and auto-assign register with it at start
--     is the argument `Registered`, and App is that registration as the modules make it.
--   * src/tickets/{dependencies,attachments,escalation,auto-assign,import-export}: Dependencies,
--     Attachments, Escalation, AutoAssign, Csv.
--   * src/comments: Comments (Base, Edit, Feed, Cascade), and Mentions for mention-parser.ts.
--   * src/auth: Auth (login, logout, the deny list and the validation of a token).
--   * src/common/{decorators,guards,interceptors}: Http (If-Match, ETag, the role guard).
--   * the controllers of all parts, src/common/{filters,interceptors} and src/app.module.ts: Api.
--     Endpoint lists the routes with their decorators, Controllers holds a handler for each, and
--     Pipeline serves a request: JwtAuthGuard, RolesGuard, the handler, the exception filter. No
--     handler sends a body with a version, so the ETag interceptor (Etag) stands for itself.
--   * the application over time: History. A run is a list of requests, ticks of the escalation
--     (escalation.cron.ts) and sweeps of the deny list, each with the `Env` of its moment and each
--     done before the next begins; `Later` is what any of them keeps of the tables before it.
--   * src/migrations and the decorators of the entities: Migrations. Sql is PostgreSQL's part, Steps
--     one file for each migration with its `up` and `down`, RoundTrip their reverting, Mapped the
--     columns that the entities declare, and Mapping the comparison with the migrated schema.
-- Prelude holds the Boolean tests, the list functions and their lemmas; Keeps the rules by which an
-- action leaves a part of the database alone; Tests the runs on a small database.
--
-- The operations keep the source's names in snake case. A method that a class repeats stands in the
-- module of its class: `Users.create`, `Tickets.Create.create`. A step of a long method, such as the
-- body of a transaction, is a definition of its own.
--
-- What the code relies on and does not implement is the record `Env` of Store: the clock, the keys
-- that the database generates, the version column after a save, whether a save meets an optimistic
-- lock, whether the database takes a row of the log, letter classes and case, and bcrypt. The JWT
-- library is a function that signs (in `TokenIssuer`) and one that reads a token (`Verifier`). Nothing
-- is assumed of it but what a theorem names. A query is the list operation that its SQL says; an
-- exception inside a transaction gives back the tables written through its manager and no other.
-- The loops run over lists and need no fuel; `print_number` and the regular expressions recurse on
-- the number or the text they are given.
--
-- Not modelled: the framework's routing, pipes, multer and throttler, so that a request of the model
-- has arguments that the pipes have let through; the configuration, column defaults, the log output,
-- the CSV and JWT libraries; `updatedAt`; a field that is explicitly null where a dto does not
-- declare null; page numbers below zero; numbers beyond the integers that a JavaScript number holds;
-- calls that run at the same time, apart from what a version check sees of an earlier call.
mod Prelude
pub mod Enums
pub mod Entities
pub mod Store
pub mod Audit
pub mod Keeps
pub mod Users
pub mod Projects
pub mod Tickets
pub mod Dependencies
pub mod Mentions
pub mod Migrations
pub mod Attachments
pub mod Escalation
pub mod AutoAssign
pub mod Comments
pub mod Csv
pub mod Auth
pub mod Http
pub mod App
pub mod Api
pub mod History
pub mod Tests
