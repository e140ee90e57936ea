-- ===== src/Lib.antt =====
-- A verification library of the help desk's backend (backend/, written in Go).
--
-- The backend serves tickets. A ticket has a status, a tracking number, replies, links, attachments
-- and a history; users of three roles and guests open tickets, staff work on them. Each part of the
-- domain is a service over a store; the stores issue SQL statements that sqlc compiles. The ticket
-- service calls the SLA service, when there is one, the audit store and the dispatcher of
-- notifications; the HTTP handlers call the services.
--
-- Which file models which part:
--   * Base and its children: the lists, options, numbers, texts and table operations shared by all.
--     A text is the list of its code points, and its length is counted in UTF-8 bytes. A table is
--     the list of its rows, in the order in which they were inserted.
--   * Exec: an operation maps the outside world and a state to a result and a state. The world
--     gives the clock's readings, fresh identifiers and the statements that the database refuses,
--     by the number of the call, so that the theorems hold for every clock and every pattern of
--     refusals. A refused statement changes nothing. `calm` is a world that refuses nothing.
--     Exec/Keeps, Exec/Triple and Exec/Total hold the rules for invariants, for results and for
--     operations that always return.
--   * Ticket: the types of backend/internal/domain/ticket/ticket.go; Ticket/Tracking and
--     Ticket/Rules: its functions. Ticket/Store, Ticket/Attachments and Ticket/Listing:
--     the statements of backend/internal/database/ticketstore/ticketstore.go with
--     backend/queries/tickets.sql, statuses.sql and status_history.sql, and of
--     backend/internal/database/auditstore/auditstore.go.
--     Ticket/Service and Ticket/Service/Create: backend/internal/domain/ticket/service.go, one
--     definition for each method, under the method's name in snake_case. Ticket/Operation: the
--     operations as data, and histories of the service as lists of operations. The other children
--     of Ticket hold theorems.
--   * Sla: backend/internal/domain/sla/sla.go; Sla/Store:
--     backend/internal/database/slastore/slastore.go with backend/queries/sla.sql; Sla/Service:
--     backend/internal/domain/sla/service.go. The other children hold theorems.
--   * User: backend/internal/domain/user/user.go; User/Store:
--     backend/internal/database/userstore/userstore.go with backend/queries/users.sql;
--     User/Service: backend/internal/domain/user/service.go, where `unicode.ToLower`, bcrypt and
--     TOTP are fields of the record `Libraries`, a parameter; User/Operation: its operations as
--     data. The other children hold theorems.
--   * Registration: backend/internal/domain/registration/registration.go; Registration/Store:
--     backend/internal/database/registrationstore/registrationstore.go with
--     backend/queries/pending_registrations.sql, whose `lower` is a parameter; Registration/Service:
--     backend/internal/domain/registration/service.go. Registration/Signup holds theorems.
--   * Group, Group/Store and Group/Service: backend/internal/domain/group/group.go and service.go and
--     backend/internal/database/groupstore/groupstore.go with backend/queries/groups.sql.
--   * Settings, Settings/Key, Settings/Store and Settings/Service:
--     backend/internal/domain/admin/settings.go and service.go and
--     backend/internal/database/adminstore/adminstore.go with backend/queries/settings.sql. A stored
--     JSON value is a data type with a constructor for each shape that the service reads.
--   * CustomField, CustomField/Store and CustomField/Service: backend/internal/domain/customfield and
--     backend/internal/database/customfieldstore with backend/queries/custom_fields.sql.
--   * CannedResponse, CannedResponse/Store and CannedResponse/Service:
--     backend/internal/domain/cannedresponse and backend/internal/database/cannedresponsestore with
--     backend/queries/canned_responses.sql.
--   * Tag, Tag/Store and Tag/Service: backend/internal/domain/tag and
--     backend/internal/database/tagstore.
--   * Category, Category/Store and Category/Service: backend/internal/domain/category and
--     backend/internal/database/categorystore with backend/queries/categories.sql, and the foreign keys
--     of its tables; Category/Operation: its operations as data.
--   * Plugin: backend/internal/domain/plugin/plugin.go and registry.go.
--   * Ticket/Search: the searches of ticketstore.go and the query that it makes for them.
--   * Auth, Auth/Store and Auth/Middleware: backend/internal/domain/auth/session.go, apikey.go and
--     oauth.go, backend/internal/database/authstore/authstore.go and
--     backend/internal/middleware/auth.go, with the lookup of backend/cmd/server/main.go.
--   * Server, Server/Listing, Server/Tickets and Server/Creation: `handleError` of
--     backend/internal/server/respond.go and the handlers of
--     backend/internal/server/handler_tickets.go. The state `AppDb` holds the tables of all services,
--     and a handler runs each service on its own part.
--   * The other children of these hold theorems. Tests, wherever it stands: the theorems applied to
--     small concrete tables.
--
-- Code of other packages and of the database is a parameter: the parser of UUIDs, the Unicode tables,
-- the password hash and the one-time codes, the hash of API keys and the verification of access
-- tokens, the collation of names, ILIKE, text search and its rank. The record `Platform` holds those
-- of the handlers.
--
-- Conventions. A UUID is a number, with 0 for uuid.Nil. A time is in nanoseconds since Go's zero
-- time, and AddDate adds days of 24 hours. Strings outside an enumeration have a constructor of
-- their own (`other_role` and the like). A Go int is an integer; where it is cut to 32 or 64 bits
-- the cut is written out. The SQL function now() is a reading of the same clock. Unique and foreign
-- keys that the theorems rely on are tests of the statements; the other constraints are among the
-- reasons for which a statement may be refused. An error is one of the constructors of `Error`, by
-- the sentinel or the message of the Go error. The decimal digits of a number are found on fuel:
-- the number plus one is given, and a number has no more digits than that.
--
-- A handler takes the decoded body (none where the decoder fails) and answers with a status code and
-- a body, or with the code of an error; the text of messages is left out. The custom fields of a new
-- ticket come in the order in which Go goes through the map, so that the theorems hold for every
-- order.
--
-- Not modelled: operations that overlap in time (each runs to its end before the next one starts), the
-- lists of users and of policies, the contents of notifications beyond their events, the HTTP
-- handlers outside handler_tickets.go, OIDC, SAML and the issue of tokens (calls of other
-- packages), the sinks of notifications, the MCP server, start-up, and the front end.
pub mod Base
pub mod Exec
pub mod Ticket
pub mod Sla
pub mod User
pub mod Registration
pub mod Group
pub mod Settings
pub mod CustomField
pub mod CannedResponse
pub mod Category
pub mod Tag
pub mod Plugin
pub mod Auth
pub mod Server
