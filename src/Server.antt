-- ===== src/Server.antt =====
-- The HTTP server: backend/internal/server/respond.go, and the state and the parameters of its
-- handlers. A handler gets the actor and the parsed parts of the request, and returns a response:
-- a status with a value, or a status with an error code; the texts of the messages are left out.
pub mod Tickets
pub mod Listing
pub mod Creation
pub mod Visibility
pub mod Authority
pub mod Assignment
pub mod Requests
mod Tests
use open_help_desk.Base.{ℕ, Bool, Option, none, some, List, Uuid, Time}
use open_help_desk.Base.Text.{Text, codes, text_eq}
use open_help_desk.Exec.{Error, not_found, Result, ok, err, Exec, World, zoom, pure}
use open_help_desk.Ticket.{Ticket}
use open_help_desk.Ticket.Store.{TicketDb}
use open_help_desk.Ticket.Service.{Service}
use open_help_desk.User.Store.{UserDb}
use open_help_desk.Group.Store.{GroupDb}
use open_help_desk.Settings.Store.{SettingsDb}
use open_help_desk.CustomField.Store.{FieldDb}

-- The tables that the ticket handlers reach, and the round-robin counter.
pub record AppDb : Type 0 where
  pub tickets : TicketDb
  pub users : UserDb
  pub groups : GroupDb
  pub settings : SettingsDb
  pub fields : FieldDb
  -- `rrIdx`, an atomic uint64
  pub turns : ℕ

-- What the handlers use of packages and of the database: `uuid.Parse`, the tables of unicode, the
-- class of word characters, the collation, ILIKE, the match and the rank of the text search, and
-- the year of a time in the server's zone; and the ticket service that the server was built with.
pub record Platform : Type 0 where
  pub parse_uuid : Text → Option Uuid
  pub upper : ℕ → ℕ
  pub lower : ℕ → ℕ
  pub is_word : ℕ → Bool
  pub name_le : Text → Text → Bool
  pub ilike : Text → Text → Bool
  pub matches : Text → Ticket → Bool
  pub rank : Text → Ticket → ℕ
  pub year : Time → ℕ
  pub service : Service

pub data Response (A : Type 0) : Type 0 where
  success : ℕ → A → Response A
  failure : ℕ → Text → Response A

abbrev pub bad_request : {A : Type 0} → Response A
bad_request = failure 400 (codes "bad_request")

abbrev pub forbidden_response : {A : Type 0} → Response A
forbidden_response = failure 403 (codes "forbidden")

-- Only a missing row has a status of its own.
unfoldable pub handle_error : {A : Type 0} → Error → Response A
handle_error not_found = failure 404 (codes "not_found")
handle_error _ = failure 500 (codes "internal_error")

abbrev pub Handler : Type 0 → Type 0
Handler A = Exec AppDb (Response A)

abbrev pub proceed : {A B : Type 0} → Result A → (A → Handler B) → Handler B
proceed (ok a) k env w = k a env w
proceed (err e) k env w = (ok (handle_error e), w)

-- `if err != nil { handleError(w, err); return }`
unfoldable pub handled : {A B : Type 0} → Exec AppDb A → (A → Handler B) → Handler B
handled m k env w = let (r, w') = m env w in proceed r k env w'

abbrev pub answer : {A : Type 0} → ℕ → A → Handler A
answer status a = pure (success status a)

-- Code of one service
unfoldable pub on_tickets : {A : Type 0} → Exec TicketDb A → Exec AppDb A
on_tickets m = zoom (λ s. s.tickets) (λ t s. record s { tickets = t }) m

unfoldable pub on_users : {A : Type 0} → Exec UserDb A → Exec AppDb A
on_users m = zoom (λ s. s.users) (λ t s. record s { users = t }) m

unfoldable pub on_groups : {A : Type 0} → Exec GroupDb A → Exec AppDb A
on_groups m = zoom (λ s. s.groups) (λ t s. record s { groups = t }) m

unfoldable pub on_settings : {A : Type 0} → Exec SettingsDb A → Exec AppDb A
on_settings m = zoom (λ s. s.settings) (λ t s. record s { settings = t }) m

unfoldable pub on_fields : {A : Type 0} → Exec FieldDb A → Exec AppDb A
on_fields m = zoom (λ s. s.fields) (λ t s. record s { fields = t }) m
