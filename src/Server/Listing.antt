-- ===== src/Server/Listing.antt =====
-- The list of tickets: `handleListTickets` of backend/internal/server/handler_tickets.go.
use open_help_desk.Base.{
  Bool, false, not, ◌||◌, none, some, List, [], ◌∷◌, ◌++◌, Uuid, if◌then◌else◌, ◌==◌,
}
use open_help_desk.Base.Int.{ℤ, pos}
use open_help_desk.Base.Text.{Text, codes, text_eq, trim_space, is_empty}
use open_help_desk.Exec.{Exec, pure}
use open_help_desk.Ticket.{Ticket, Role, is_admin, is_user}
use open_help_desk.Ticket.Store.{TicketDb}
use open_help_desk.Ticket.Listing
use open_help_desk.Ticket.Search
use open_help_desk.Group.{Group}
use open_help_desk.Group.Store as Groups
use open_help_desk.Auth.{Actor}
use open_help_desk.Server.{
  AppDb, Platform, bad_request, forbidden_response, Handler, handled, answer, on_tickets, on_groups,
}

-- The query parameters, empty if they are missing.
pub record ListQuery : Type 0 where
  pub q : Text
  pub scope : Text
  pub reporter_id : Text
  pub assignee_group_id : Text

-- The map `seen`, as the list of its keys.
unfoldable pub was_seen : Uuid → List Ticket → Bool
was_seen id [] = false
was_seen id (t ∷ ts) = (t.id == id) || was_seen id ts

-- The tickets of a group that are not yet in the list go to its end.
unfoldable pub merged : List Ticket → List Ticket → List Ticket
unfolding was_seen
merged all [] = all
merged all (t ∷ ts) = merged (if was_seen t.id all then all else all ++ t ∷ []) ts

abbrev pub is_unassigned_scope : Text → Bool
is_unassigned_scope scope = text_eq scope (codes "unassigned")

abbrev pub is_all_scope : Text → Bool
is_all_scope scope = text_eq scope (codes "all")

module _ (p : Platform) where
  -- `if q != "" { Search… } else { List… }`, 100 tickets from the first on
  abbrev pub search_or_list :
      (Text → ℤ → ℤ → Exec TicketDb (List Ticket))
      → (ℤ → ℤ → Exec TicketDb (List Ticket))
      → Text
      → Exec AppDb (List Ticket)
  search_or_list search list q =
      on_tickets (if not (is_empty q) then search q (pos 100) (pos 0) else list (pos 100) (pos 0))

  unfoldable pub of_reporter : Uuid → Text → Exec AppDb (List Ticket)
  unfolding on_tickets Search.search_by_reporter Listing.list_by_reporter
  of_reporter id =
      search_or_list
        (Search.search_by_reporter p.is_word p.lower p.upper p.ilike p.matches p.rank id)
        (Listing.list_by_reporter id)

  unfoldable pub of_assignee : Uuid → Text → Exec AppDb (List Ticket)
  unfolding on_tickets Search.search_by_assignee_user Listing.list_by_assignee_user
  of_assignee id =
      search_or_list
        (Search.search_by_assignee_user p.is_word p.lower p.upper p.ilike p.matches p.rank id)
        (Listing.list_by_assignee_user id)

  unfoldable pub of_group : Uuid → Text → Exec AppDb (List Ticket)
  unfolding on_tickets Search.search_by_assignee_group Listing.list_by_assignee_group
  of_group id =
      search_or_list
        (Search.search_by_assignee_group p.is_word p.lower p.upper p.ilike p.matches p.rank id)
        (Listing.list_by_assignee_group id)

  unfoldable pub of_nobody : Text → Exec AppDb (List Ticket)
  unfolding on_tickets Search.search_unassigned Listing.list_unassigned
  of_nobody =
      search_or_list (Search.search_unassigned p.is_word p.lower p.upper p.ilike p.matches p.rank)
        Listing.list_unassigned

  unfoldable pub of_everybody : Text → Exec AppDb (List Ticket)
  unfolding on_tickets Search.search_all Listing.list_all
  of_everybody =
      search_or_list (Search.search_all p.is_word p.lower p.upper p.ilike p.matches p.rank)
        Listing.list_all

  unfoldable pub with_groups : Text → List Group → List Ticket → Handler (List Ticket)
  unfolding merged handled of_group
  with_groups q [] all = answer 200 all
  with_groups q (g ∷ gs) all = handled (of_group g.id q) λ ts. with_groups q gs (merged all ts)

  -- Tickets of the user and of the user's groups
  unfoldable pub of_staff : Uuid → Text → Handler (List Ticket)
  unfolding handled of_assignee on_groups Groups.list_groups_for_user with_groups
  of_staff user_id q = handled (of_assignee user_id q) λ mine.
      handled (on_groups (Groups.list_groups_for_user p.name_le user_id))
        λ groups. with_groups q groups mine

  abbrev pub for_reporter : Role → Text → Text → Handler (List Ticket)
  for_reporter role reporter_id q =
      if not (is_admin role) then pure forbidden_response else elim (p.parse_uuid reporter_id) [
        | none ↦ pure bad_request
        | some id ↦ handled (of_reporter id q) (answer 200)
      ]

  abbrev pub for_group : Role → Text → Text → Handler (List Ticket)
  for_group role group_id q =
      if is_user role then pure forbidden_response else elim (p.parse_uuid group_id) [
        | none ↦ pure bad_request
        | some id ↦ handled (of_group id q) (answer 200)
      ]

  abbrev pub for_scope : Role → Text → Text → Handler (List Ticket)
  for_scope role scope q =
      if not (is_admin role)
      then pure forbidden_response
      else if is_unassigned_scope scope
      then handled (of_nobody q) (answer 200)
      else handled (of_everybody q) (answer 200)

  unfoldable pub handle_list_tickets : Actor → ListQuery → Handler (List Ticket)
  unfolding trim_space handled of_reporter of_group of_nobody of_everybody of_staff
  handle_list_tickets a r =
      let q = trim_space r.q in
      let scope = trim_space r.scope in
      if not (is_empty r.reporter_id)
      then for_reporter a.role r.reporter_id q
      else if not (is_empty r.assignee_group_id)
      then for_group a.role r.assignee_group_id q
      else if is_unassigned_scope scope || is_all_scope scope
      then for_scope a.role scope q
      else if is_user a.role
      then handled (of_reporter a.user_id q) (answer 200)
      else of_staff a.user_id q
