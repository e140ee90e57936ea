-- ===== src/Ticket/Tests/Desk.antt =====
-- A small help desk: three system statuses and one ticket in each.
use open_help_desk.Base.{ℕ, ◌+◌, true, Option, none, some, [], ◌∷◌, Uuid, Time}
use open_help_desk.Base.Text.{Text, codes}
use open_help_desk.Base.Int.{pos}
use open_help_desk.Exec.{Env, World, calm}
use open_help_desk.Ticket.{
  Ticket, Status, Actor, staff, user, medium, system, status_name_new, status_name_resolved,
  status_name_closed,
}
use open_help_desk.Ticket.Tracking.{generate_tracking_number}
use open_help_desk.Ticket.Store.{TicketDb}
use open_help_desk.Ticket.Service.{Service}

abbrev pub status_of : Uuid → Text → Status
status_of id name = record {
  id = id;
  name = name;
  kind = system;
  sort_order = pos id;
  color = codes "#123456";
  active = true;
}

abbrev pub ticket_of : Uuid → ℕ → Uuid → Option Time → Option Time → Ticket
ticket_of id seq status resolved_at closed_at = record {
  id = id;
  tracking_number = generate_tracking_number 2025 seq;
  subject = codes "No sound";
  description = codes "since Monday";
  category_id = 70;
  type_id = none;
  item_id = none;
  priority = medium;
  status_id = status;
  assignee_user_id = none;
  assignee_group_id = none;
  reporter_user_id = some 50;
  guest_email = none;
  guest_name = [];
  guest_phone = [];
  resolution_notes = none;
  resolved_at = resolved_at;
  closed_at = closed_at;
  created_at = 5;
  updated_at = 5;
}

abbrev pub open_ticket : Ticket
open_ticket = ticket_of 1 1 11 none none

abbrev pub resolved_ticket : Ticket
resolved_ticket = ticket_of 2 2 12 (some 90) none

abbrev pub closed_ticket : Ticket
closed_ticket = ticket_of 3 3 13 (some 80) (some 95)

abbrev pub desk : World TicketDb
desk = record {
  db = record {
    tickets = open_ticket ∷ resolved_ticket ∷ closed_ticket ∷ [];
    statuses =
        status_of 11 status_name_new
        ∷ status_of 12 status_name_resolved
        ∷ status_of 13 status_name_closed
        ∷ [];
    history = [];
    replies = [];
    links = [];
    attachments = [];
    seq = 3;
    audit = [];
    events = [];
    sla = record { policies = []; records = [] };
  };
  calls = 0;
}

abbrev pub service : Service
service = record {
  new_id = 11;
  resolved_id = 12;
  closed_id = 13;
  resolved = status_of 12 status_name_resolved;
  closed = status_of 13 status_name_closed;
  sla_on = true;
}

-- The clock counts the calls, and so do the identifiers.
abbrev pub clock : ℕ → Time
clock n = 100 + n

abbrev pub ids : ℕ → Uuid
ids n = 1000 + n

abbrev pub calm_env : Env
calm_env = calm clock ids

abbrev pub agent : Actor
agent = record { user_id = some 60; role = staff }

abbrev pub reporter : Actor
reporter = record { user_id = some 50; role = user }

-- Somebody who reported nothing.
abbrev pub stranger : Actor
stranger = record { user_id = some 51; role = user }
