-- ===== src/Ticket/Service/Create.antt =====
-- Opening a ticket: `Create` of backend/internal/domain/ticket/service.go.
use open_help_desk.Base.{
  ℕ, Bool, true, ◌&&◌, ◌||◌, Option, none, some, [], Uuid, Time, ltb, if◌then◌else◌, is_none,
}
use open_help_desk.Base.Text.{Text, byte_length, trim_space, is_empty}
use open_help_desk.Exec.{
  Done, Exec, pure, raise_if, attempt, now, fresh, zoom, validation, ◌>>=◌, ◌>>◌,
}
use open_help_desk.Ticket.{Ticket, Priority, other_role}
use open_help_desk.Ticket.Tracking.{generate_tracking_number}
use open_help_desk.Ticket.Store
use open_help_desk.Ticket.Store.{TicketDb, Action, ticket_created, nothing}
use open_help_desk.Ticket.Service.{Service, record_status_change, write_audit, ticket_map, dispatch}
use open_help_desk.Sla.Service.{attach_policy}

abbrev pub max_subject_length : ℕ
max_subject_length = 500

abbrev pub max_description_length : ℕ
max_description_length = 50_000

pub record CreateInput : Type 0 where
  pub subject : Text
  pub description : Text
  pub category_id : Uuid
  pub type_id : Option Uuid
  pub item_id : Option Uuid
  pub priority : Priority
  pub reporter_user_id : Option Uuid
  pub guest_email : Option Text
  pub guest_name : Text
  pub guest_phone : Text

abbrev pub lacks_text : Option Text → Bool
lacks_text t = elim t [ none ↦ true | some s ↦ is_empty s ]

-- The four checks of an input, in their order; each has the same error.
unfoldable pub is_refused : CreateInput → Bool
unfolding trim_space byte_length
is_refused input =
    is_empty (trim_space input.subject)
    || ltb max_subject_length (byte_length input.subject)
    || ltb max_description_length (byte_length input.description)
    || (is_none input.reporter_user_id && lacks_text input.guest_email)

-- The ticket that is opened.
unfoldable pub opened : Service → CreateInput → Uuid → Text → Time → Ticket
unfolding trim_space
opened svc input id tracking_number at = record {
  id = id;
  tracking_number = tracking_number;
  subject = trim_space input.subject;
  description = input.description;
  category_id = input.category_id;
  type_id = input.type_id;
  item_id = input.item_id;
  priority = input.priority;
  status_id = svc.new_id;
  assignee_user_id = none;
  assignee_group_id = none;
  reporter_user_id = input.reporter_user_id;
  guest_email = input.guest_email;
  guest_name = input.guest_name;
  guest_phone = input.guest_phone;
  resolution_notes = none;
  resolved_at = none;
  closed_at = none;
  created_at = at;
  updated_at = at;
}

unfoldable pub attach_sla : Bool → Ticket → Exec TicketDb Done
unfolding attach_policy
attach_sla sla_on t =
    if sla_on
    then attempt (zoom (λ s. s.sla) (λ sla s. record s { sla = sla }) (attach_policy t))
    else pure tt

-- What follows the insertion of a new ticket.
unfoldable pub announce : Service → CreateInput → Ticket → Exec TicketDb Done
unfolding record_status_change write_audit attach_sla dispatch
announce svc input t = do
  record_status_change t.id none svc.new_id
      (record { user_id = input.reporter_user_id; role = other_role [] })
  write_audit input.reporter_user_id t.id Action.created none (ticket_map t)
  attach_sla svc.sla_on t
  dispatch (record {
    type = ticket_created;
    ticket_id = t.id;
    actor_id = input.reporter_user_id;
    payload = nothing;
    occurred_at = t.created_at;
  })

-- `year` is `time.Time.Year` in the server's time zone.
unfoldable pub create : (Time → ℕ) → Service → CreateInput → Exec TicketDb Ticket
unfolding opened announce
create year svc input = do
  raise_if (is_refused input) validation
  seq ← Store.next_seq
  at ← now
  id ← fresh
  let t = opened svc input id (generate_tracking_number (year at) seq) at
  Store.create t
  announce svc input t
  pure t
