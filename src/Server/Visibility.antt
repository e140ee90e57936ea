-- ===== src/Server/Visibility.antt =====
-- Which tickets a user gets to see: backend/internal/server/handler_tickets.go.
use open_help_desk.Base.{
  ℕ, ◌≤◌, ◌≡◌, refl, ◌↔◌, ◌⊎◌, inl, inr, true, false, ◌||◌, Option, none, some, List, Uuid, Time,
  arith, Bool-cases, Option-cases, map,
}
use open_help_desk.Base.Int.{pos, to_int32}
use open_help_desk.Base.Table.{All, length, find_row}
use open_help_desk.Base.Text.{Text, text_eq, trim_space, is_empty}
use open_help_desk.Exec.{Env, World, calm, ok, pure, zoom, query, statement, Result-cases}
use open_help_desk.Ticket.{Ticket, Role, admin, staff, user, other_role, is_user, is_admin}
use open_help_desk.Ticket.Store as Tickets
use open_help_desk.Ticket.Store.{TicketDb, has_id}
use open_help_desk.Ticket.Listing.{is_uuid, list_by_reporter_ok}
use open_help_desk.Ticket.Search
use open_help_desk.Ticket.Search.Pages.{search_page_ok}
use open_help_desk.Auth.{Actor}
use open_help_desk.Server.{AppDb, Platform, success, handled, on_tickets, handle_error}
use open_help_desk.Server.Listing.{
  ListQuery, of_reporter, handle_list_tickets, is_unassigned_scope, is_all_scope,
}
use open_help_desk.Server.Tickets.{is_hidden, fetch_ticket, handle_get_ticket}

user_no_admin : (r : Role) → is_user r ≡ true → is_admin r ≡ false
user_no_admin admin h = absurd cc
user_no_admin staff h = refl
user_no_admin user h = refl
user_no_admin (other_role t) h = refl

-- The tickets are the user's own, and at most 100.
abbrev pub IsOwnPage : Uuid → List Ticket → Type 0
IsOwnPage id ts = All (λ t. is_uuid id t.reporter_user_id ≡ true) ts × (length ts ≤ 100)

-- No actor, or one who is no user, or the reporter
abbrev pub MaySee : Option Actor → Ticket → Type 0
MaySee none t = Unit
MaySee (some a) t = (is_user a.role ≡ false) ⊎ (t.reporter_user_id ≡ some a.user_id)

is_hidden-MaySee : (a : Option Actor) (t : Ticket) → (is_hidden a t ≡ false) ↔ MaySee a t
is_hidden-MaySee none t = (λ h. tt, λ h. refl)
is_hidden-MaySee (some a) t = elim (Bool-cases (is_user a.role)) [
  | inr other ↦ (λ h. inl other, λ h. ground arith)
  | inl role ↦ elim (Option-cases t.reporter_user_id) [
    | inl guest ↦ (λ h. absurd (ground arith), elim [ inl other ↦ absurd cc | inr own ↦ absurd cc ])
    | inr (id, by) ↦
        (λ h. inr (ground arith), elim [ inl other ↦ absurd cc | inr own ↦ ground arith ])
  ]
]

module _ (p : Platform) where
  of_reporter_ok :
      (id : Uuid) (q : Text) (env : Env) (w : World AppDb) (ts : List Ticket)
      → (of_reporter p id q env w).0 ≡ ok ts
      → IsOwnPage id ts
  unfolding of_reporter on_tickets Search.search_by_reporter zoom to_int32
  of_reporter_ok id q env w ts h =
      let v : World TicketDb = record { db = w.db.tickets; calls = w.calls } in
      elim (Bool-cases (is_empty q)) [
        | inl empty ↦ list_by_reporter_ok id (pos 100) (pos 0) env v ts (ground arith)
        | inr typed ↦
            search_page_ok p.is_word p.lower p.upper p.ilike p.matches p.rank
              (λ t. is_uuid id t.reporter_user_id) q (pos 100) (pos 0) env v ts (ground arith)
      ]

  -- Whatever the query asks for, a list that a user gets holds tickets that the user has reported, and
  -- no others, and at most 100.
  pub list_tickets_own :
      (a : Actor) (r : ListQuery) (env : Env) (w : World AppDb) (n : ℕ) (ts : List Ticket)
      → is_user a.role ≡ true
      → (handle_list_tickets p a r env w).0 ≡ ok (success n ts)
      → IsOwnPage a.user_id ts
  unfolding handle_list_tickets handled handle_error pure
  list_tickets_own a r env w n ts role h =
      let no_admin : is_admin a.role ≡ false = user_no_admin a.role role in
      let listed = Result-cases (of_reporter p a.user_id (trim_space r.q) env w).0 in
      let reporter = Bool-cases (is_empty r.reporter_id) in
      let group = Bool-cases (is_empty r.assignee_group_id) in
      let scoped =
        Bool-cases
          (is_unassigned_scope (trim_space r.scope) || is_all_scope (trim_space r.scope)) in
      of_reporter_ok a.user_id (trim_space r.q) env w ts (ground arith)

  -- The row that a path's id stands for
  abbrev pub row_at : Text → TicketDb → Option Ticket
  row_at id s = elim (p.parse_uuid id) [
    | some uid ↦ find_row (has_id uid) s.tickets
    | none ↦ find_row (λ t. text_eq t.tracking_number (map p.upper id)) s.tickets
  ]

  -- If the database refuses nothing, the handler of one ticket answers with a ticket exactly if it is
  -- the row that the id in the path stands for and, where the request has an actor, the actor's role
  -- is not that of a user or the actor has reported the ticket.
  pub get_ticket_iff :
      (a : Option Actor) (id : Text) (now_at : ℕ → Time) (uuid_at : ℕ → Uuid) (w : World AppDb)
      (t : Ticket)
      → ((handle_get_ticket p a id (calm now_at uuid_at) w).0 ≡ ok (success 200 t))
        ↔ ((row_at id w.db.tickets ≡ some t) × MaySee a t)
  unfolding handle_get_ticket handled handle_error fetch_ticket on_tickets Tickets.get_by_id
      Tickets.get_by_tracking_number zoom query statement pure
  get_ticket_iff a id now_at uuid_at w t = elim (Option-cases (row_at id w.db.tickets)) [
    | inl missing ↦
        let parsed = Option-cases (p.parse_uuid id) in
        (λ h. absurd (ground arith), λ h. absurd (ground arith))
    | inr (u, there) ↦
        let parsed = Option-cases (p.parse_uuid id) in
        let (shows, _) = is_hidden-MaySee a t in
        let hides = (is_hidden-MaySee a t).1 in
        elim (Bool-cases (is_hidden a u)) [
          | inl hidden ↦ (
            λ h. absurd (ground arith),
            λ h. let same : t ≡ u = ground arith in absurd (ground arith),
          )
          | inr shown ↦ (λ h. let same : t ≡ u = ground arith in ground arith, λ h. ground arith)
        ]
  ]
