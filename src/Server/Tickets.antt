-- ===== src/Server/Tickets.antt =====
-- The handlers of one ticket: backend/internal/server/handler_tickets.go. A body is none if it is
-- no JSON. Behind the ticket router every request has an actor.
use open_help_desk.Base.{
  Bool, true, false, not, ◌||◌, ◌&&◌, Option, none, some, List, [], Uuid, map, if◌then◌else◌, ◌==◌,
  is_some,
}
use open_help_desk.Base.Table.{find_row}
use open_help_desk.Base.Text.{Text, text_eq, trim_space, is_empty}
use open_help_desk.Exec.{Done, Exec, pure, try, ◌>>=◌}
use open_help_desk.Ticket.{
  Ticket, Status, StatusHistoryEntry, Reply, TicketLink, LinkType, related_to, parent_child,
  caused_by, duplicate_of, other_link, link_text, Role, is_admin, is_user,
}
use open_help_desk.Ticket as Domain
use open_help_desk.Ticket.Store as Tickets
use open_help_desk.Ticket.Store.{TicketDb}
use open_help_desk.Ticket.Service
use open_help_desk.User.{User}
use open_help_desk.User.Store as Users
use open_help_desk.Settings.Service as Settings
use open_help_desk.Auth.{Actor}
use open_help_desk.Server.{
  AppDb, Platform, bad_request, forbidden_response, Handler, handled, answer, on_tickets, on_users,
  on_settings,
}

-- `ticket.Actor{UserID: &a.UserID, Role: a.Role}`
abbrev pub ticket_actor : Actor → Domain.Actor
ticket_actor a = record { user_id = some a.user_id; role = a.role }

-- `ticket.LinkType(…)`: any string, four of which are constants
unfoldable pub link_of : Text → LinkType
unfolding text_eq
link_of t =
    if text_eq t (link_text related_to)
    then related_to
    else if text_eq t (link_text parent_child)
    then parent_child
    else if text_eq t (link_text caused_by)
    then caused_by
    else if text_eq t (link_text duplicate_of)
    then duplicate_of
    else other_link t

-- `t.ReporterUserID == nil || *t.ReporterUserID != a.UserID`
abbrev pub is_foreign : Ticket → Actor → Bool
is_foreign t a = elim t.reporter_user_id [ none ↦ true | some id ↦ not (id == a.user_id) ]

-- The actor is a user, and the ticket is not the user's own.
abbrev pub is_hidden : Option Actor → Ticket → Bool
is_hidden none t = false
is_hidden (some a) t = is_user a.role && is_foreign t a

pub record UpdateBody : Type 0 where
  pub status_id : Option Uuid
  pub assignee_user_id : Option Uuid
  pub assignee_group_id : Option Uuid
  pub category_id : Option Uuid
  pub type_id : Option Uuid
  pub item_id : Option Uuid

pub record ReplyBody : Type 0 where
  pub body : Text
  pub internal : Bool
  pub notify_customer : Option Bool

pub record LinkBody : Type 0 where
  pub target_id : Uuid
  pub link_type : Text

abbrev pub with_body : {A B : Type 0} → Option B → (B → Handler A) → Handler A
with_body none k = pure bad_request
with_body (some b) k = k b

abbrev pub change_status : Actor → Uuid → Option Uuid → Handler Ticket → Handler Ticket
change_status a id none next = next
change_status a id (some status_id) next =
    handled (on_tickets (Service.update_status id status_id (ticket_actor a))) λ t. next

abbrev pub email_of : Option User → Text
email_of none = []
email_of (some u) = u.email

-- The address of the reporter, empty if it is not found
abbrev pub reporter_email : Option Ticket → Exec AppDb Text
reporter_email none = pure []
reporter_email (some t) = elim t.guest_email [
  | some email ↦ pure email
  | none ↦ elim t.reporter_user_id [
    | none ↦ pure []
    | some id ↦ try (on_users (Users.get_by_id id)) >>= λ u. pure (email_of u)
  ]
]

-- `NotifyCustomer` is true by default, and false for internal notes.
abbrev pub is_notifying : ReplyBody → Bool
is_notifying b = if b.internal then false else elim b.notify_customer [ none ↦ true | some n ↦ n ]

-- The status of the name, or uuid.Nil
abbrev pub id_of : Option Status → Uuid
id_of none = 0
id_of (some st) = st.id

abbrev pub named_status : Text → List Status → Uuid
named_status name sts = id_of (find_row (λ (st : Status). text_eq st.name name) sts)

abbrev pub guarded_history :
    Option Actor → Uuid → Handler (List StatusHistoryEntry) → Handler (List StatusHistoryEntry)
guarded_history none id next = next
guarded_history (some a) id next =
    if is_user a.role
    then handled (on_tickets (Tickets.get_by_id id))
        (λ t. if is_foreign t a then pure forbidden_response else next)
    else next

abbrev pub change_assignee : Actor → Uuid → UpdateBody → Handler Ticket → Handler Ticket
change_assignee a id b next =
    if is_some b.assignee_user_id || is_some b.assignee_group_id
    then handled
        (on_tickets (Service.assign id b.assignee_user_id b.assignee_group_id (ticket_actor a)))
        (λ t. next)
    else next

abbrev pub change_category :
    Actor → Uuid → UpdateBody → Option Uuid → Handler Ticket → Handler Ticket
change_category a id b none next = next
change_category a id b (some category_id) next =
    if is_user a.role
    then pure forbidden_response
    else handled (on_tickets (Service.update_cti id category_id b.type_id b.item_id)) λ t. next

module _ (p : Platform) where
  -- `uuid.Parse(chi.URLParam(r, "id"))`
  abbrev pub with_id : {A : Type 0} → Text → (Uuid → Handler A) → Handler A
  with_id id k = elim (p.parse_uuid id) [ none ↦ pure bad_request | some uid ↦ k uid ]

  -- A ticket by its UUID or by its tracking number
  unfoldable pub fetch_ticket : Text → Exec AppDb Ticket
  unfolding on_tickets
  fetch_ticket id = elim (p.parse_uuid id) [
    | some uid ↦ on_tickets (Tickets.get_by_id uid)
    | none ↦ on_tickets (Tickets.get_by_tracking_number (map p.upper id))
  ]

  unfoldable pub handle_get_ticket : Option Actor → Text → Handler Ticket
  unfolding handled fetch_ticket
  handle_get_ticket a id =
      handled (fetch_ticket id) λ t. if is_hidden a t then pure forbidden_response else answer 200 t

  -- The changes are made one after the other; a later one that fails leaves the earlier ones.
  unfoldable pub handle_update_ticket : Actor → Text → Option UpdateBody → Handler Ticket
  unfolding handled on_tickets
  handle_update_ticket a id body = with_id id λ uid. with_body body λ b.
      change_status a uid b.status_id (
        change_assignee a uid b (
          change_category a uid b b.category_id
            (handled (on_tickets (Tickets.get_by_id uid)) (answer 200))))

  unfoldable pub send_reply : Actor → Uuid → ReplyBody → Handler Reply
  unfolding handled on_tickets on_users on_settings
  send_reply a id b = do
    email ←
        (if is_notifying b
          then try (on_tickets (Tickets.get_by_id id)) >>= reporter_email
          else pure [])
    reopen_days ← on_settings Settings.reopen_window_days
    reopen_name ← on_settings Settings.reopen_target_status_name
    handled (on_tickets Tickets.list_statuses) λ sts.
        handled
          (on_tickets (
            Service.add_reply p.service id b.body b.internal (is_notifying b) email (ticket_actor a)
              reopen_days (named_status reopen_name sts)))
          (answer 201)

  unfoldable pub handle_add_reply : Actor → Text → Option ReplyBody → Handler Reply
  unfolding send_reply trim_space
  handle_add_reply a id body = with_id id λ uid. with_body body λ b.
      if is_empty (trim_space b.body)
      then pure bad_request
      else if b.internal && is_user a.role
      then pure forbidden_response
      else send_reply a uid b

  unfoldable pub handle_list_replies : Text → Handler (List Reply)
  unfolding handled on_tickets
  handle_list_replies id =
      with_id id λ uid. handled (on_tickets (Tickets.list_replies uid)) (answer 200)

  -- The notes are empty if the body is no JSON.
  unfoldable pub handle_resolve_ticket : Actor → Text → Text → Handler Ticket
  unfolding handled on_tickets
  handle_resolve_ticket a id notes = with_id id λ uid.
      handled (on_tickets (Service.resolve p.service uid notes (ticket_actor a))) (answer 200)

  unfoldable pub handle_reopen_ticket : Actor → Text → Handler Ticket
  unfolding handled on_tickets on_settings
  handle_reopen_ticket a id =
      if is_user a.role
      then pure forbidden_response
      else with_id id λ uid. handled (on_tickets Tickets.list_statuses) λ sts.
        on_settings Settings.reopen_target_status_name >>= λ name.
        handled (on_tickets (Service.reopen p.service uid (named_status name sts) (ticket_actor a)))
          (answer 200)

  unfoldable pub handle_close_ticket : Actor → Text → Handler Ticket
  unfolding handled on_tickets
  handle_close_ticket a id =
      if not (is_admin a.role)
      then pure forbidden_response
      else with_id id λ uid.
        handled (on_tickets (Service.close p.service uid))
          λ d. handled (on_tickets (Tickets.get_by_id uid)) (answer 200)

  unfoldable pub handle_add_link : Actor → Text → Option LinkBody → Handler Done
  unfolding handled on_tickets link_of
  handle_add_link a id body = with_id id λ uid. with_body body λ b.
      handled (on_tickets (Service.add_link uid b.target_id (link_of b.link_type) (ticket_actor a)))
        (answer 204)

  unfoldable pub handle_remove_link : Text → Text → Text → Handler Done
  unfolding handled on_tickets link_of
  handle_remove_link id target link_type = with_id id λ uid. with_id target λ target_id.
      handled (on_tickets (Service.remove_link uid target_id (link_of link_type))) (answer 204)

  unfoldable pub handle_list_status_history :
      Option Actor → Text → Handler (List StatusHistoryEntry)
  unfolding handled on_tickets
  handle_list_status_history a id = with_id id λ uid.
      guarded_history a uid (handled (on_tickets (Tickets.list_status_history uid)) (answer 200))

  unfoldable pub handle_list_links : Text → Handler (List TicketLink)
  unfolding handled on_tickets
  handle_list_links id =
      with_id id λ uid. handled (on_tickets (Tickets.list_links uid)) (answer 200)
