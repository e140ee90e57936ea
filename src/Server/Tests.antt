-- ===== src/Server/Tests.antt =====
-- The theorems on the handlers of tickets at a small desk.
use open_help_desk.Base.{
  List, ◌++◌, ℕ, suc, ◌+◌, ◌%◌, ◌^◌, ◌≤◌, ◌≡◌, refl, ◌↔◌, true, false, not, ◌||◌, Option, none,
  some, [], ◌∷◌, Uuid, Time, arith, if◌then◌else◌,
}
use open_help_desk.Base.Int.{pos, to_int32}
use open_help_desk.Base.Table.{length, find_row, select_rows}
use open_help_desk.Base.Text.{
  Text, codes, text_eq, text_lt, trim_space, byte_length, utf8_width, is_empty,
}
use open_help_desk.Exec.{
  World, calm, ok, pure, zoom, raise_if, now, fresh, attempt, modify, statement, query, write,
  ◌>>=◌,
}
use open_help_desk.Ticket.{Ticket, Status, admin, user, system, medium, is_admin, is_staff}
use open_help_desk.Ticket.Tracking.{generate_tracking_number}
use open_help_desk.Ticket.Store as Tables
use open_help_desk.Ticket.Service
use open_help_desk.Ticket.Service.Create.{create, opened, announce, is_refused}
use open_help_desk.Ticket.Listing
use open_help_desk.Ticket.Search.Bounds.{length-build_search_ts_query}
use open_help_desk.Ticket.Search.{build_search_ts_query, tokens_after, search_token, join, take}
use open_help_desk.Auth.{Actor}
use open_help_desk.Settings.{text, array, item, empty}
use open_help_desk.Settings.Key
use open_help_desk.Server.{AppDb, Platform, success, on_tickets, handled}
use open_help_desk.Server.Listing.{ListQuery, handle_list_tickets, of_reporter}
use open_help_desk.Server.Tickets.{handle_get_ticket}
use open_help_desk.Server.Requests.{Request}
use open_help_desk.Server.Creation.{
  CreateBody, handle_create_ticket, create_ticket, input_of, auto_assign,
}
use open_help_desk.Server.Creation.Answers.{create_ticket_answered}
use open_help_desk.Settings.{to_texts}
use open_help_desk.Settings.Service.{parse_all}
use open_help_desk.Settings.Store.{lookup}
use open_help_desk.Server.Visibility.{IsOwnPage, MaySee, list_tickets_own, row_at, get_ticket_iff}
use open_help_desk.Server.Authority.{create_ticket_ok}
use open_help_desk.Server.Assignment.{
  IsAssignedTo, IsAssignment, assignees, groups_for, configured_group, configured_users,
  auto_assign_ok,
}
use open_help_desk.Server.Assignment.Fairness.{assign_each, round_robin_fair}

abbrev clock : ℕ → Time
clock n = n

abbrev ids : ℕ → Uuid
ids n = 100 + n

abbrev new_status : Status
new_status = record {
  id = 1;
  name = codes "New";
  kind = system;
  sort_order = pos 0;
  color = [];
  active = true;
}

-- Ids are written as one letter.
abbrev parse_letter : Text → Option Uuid
parse_letter (c ∷ []) = some c
parse_letter _ = none

abbrev platform : Platform
platform = record {
  parse_uuid = parse_letter;
  upper = λ c. c;
  lower = λ c. c;
  is_word = λ c. not (is_empty (trim_space (c ∷ [])));
  name_le = λ a b. not (text_lt b a);
  ilike = text_eq;
  matches = λ q t. true;
  rank = λ q t. 0;
  year = λ t. 2026;
  service = record {
    new_id = 1;
    resolved_id = 2;
    closed_id = 3;
    resolved = record new_status { id = 2; name = codes "Resolved" };
    closed = record new_status { id = 3; name = codes "Closed" };
    sla_on = false;
  };
}

abbrev printer : Ticket
printer = record {
  id = 9;
  tracking_number = codes "OHD-1";
  subject = codes "Printer";
  description = [];
  category_id = 5;
  type_id = none;
  item_id = none;
  priority = medium;
  status_id = 1;
  assignee_user_id = none;
  assignee_group_id = none;
  reporter_user_id = some 7;
  guest_email = none;
  guest_name = [];
  guest_phone = [];
  resolution_notes = none;
  resolved_at = none;
  closed_at = none;
  created_at = 0;
  updated_at = 0;
}

abbrev desk : World AppDb
desk = record {
  db = record {
    tickets = record {
      tickets = printer ∷ record printer { id = 10; reporter_user_id = some 8 } ∷ [];
      statuses = new_status ∷ [];
      history = [];
      replies = [];
      links = [];
      attachments = [];
      seq = 2;
      audit = [];
      events = [];
      sla = record { policies = []; records = [] };
    };
    users = record { users = [] };
    groups = record { groups = []; members = []; scopes = [] };
    settings = record {
      settings =
          record {
            key = Key.auto_assign_user_ids;
            value = array (item (text (codes "B")) (item (text (codes "C")) empty));
          }
          ∷ [];
    };
    fields = record { defs = []; assignments = []; values = [] };
    turns = 0;
  };
  calls = 0;
}

abbrev ana : Actor
ana = record { user_id = 7; role = user; mfa_passed = true; client_id = []; scopes = [] }

abbrev everything : ListQuery
everything = record { q = []; scope = codes "mine"; reporter_id = []; assignee_group_id = [] }

list_tickets_own_example : IsOwnPage 7 (printer ∷ [])
unfolding handle_list_tickets of_reporter on_tickets handled Listing.list_by_reporter
    Listing.list_page Listing.newest_first Listing.insert_newest Listing.limited Listing.skipped
    to_int32 select_rows text_eq trim_space zoom query statement pure
list_tickets_own_example =
    list_tickets_own platform ana everything (calm clock ids) desk 200 (printer ∷ []) refl refl

get_ticket_iff_example :
    ((handle_get_ticket platform (some ana) (codes "OHD-1") (calm clock ids) desk).0
      ≡ ok (success 200 printer))
    ↔ ((row_at platform (codes "OHD-1") desk.db.tickets ≡ some printer) × MaySee (some ana) printer)
get_ticket_iff_example = get_ticket_iff platform (some ana) (codes "OHD-1") clock ids desk printer

auto_assign_ok_example :
    IsAssignment platform
      (assignees platform
        (groups_for platform printer desk.db.groups)
        (configured_group platform desk.db.settings)
        (configured_users platform desk.db.settings)
        (suc desk.db.turns % 2 ^ 64))
      printer.id
      desk.db
      (auto_assign platform printer (calm clock ids) desk).1.db
unfolding find_row Tables.has_status
auto_assign_ok_example = auto_assign_ok platform clock ids printer desk (printer, refl, refl)

-- Two tickets and two users, of whom the second one is looked for.
round_robin_fair_example :
    (front : List Uuid) × (id : Uuid) × (back : List Uuid) × (9 ∷ 10 ∷ [] ≡ front ++ id ∷ back)
    × IsAssignedTo id
        (some 67)
        none
        (assign_each platform (front ++ id ∷ []) (calm clock ids) desk).db.tickets
unfolding find_row Tables.has_status text_eq parse_all lookup to_texts
round_robin_fair_example =
    round_robin_fair platform clock ids desk 1 67 (9 ∷ 10 ∷ []) refl refl
      ((refl, (refl, tt)), (refl, (refl, tt))) (omega arith)

query_of_two :
    build_search_ts_query platform.is_word platform.lower (codes "print jam ")
    ≡ codes "print:* & jam:*"
unfolding build_search_ts_query tokens_after search_token join take trim_space
query_of_two = refl

length-build_search_ts_query_example :
    length (build_search_ts_query platform.is_word platform.lower (codes "print jam")) ≤ 690
length-build_search_ts_query_example =
    length-build_search_ts_query platform.is_word platform.lower (codes "print jam")

abbrev body : CreateBody
body = record {
  subject = codes "VPN";
  description = [];
  category_id = 5;
  type_id = some 6;
  item_id = some 4;
  priority = [];
  guest_email = [];
  guest_name = [];
  guest_phone = [];
  custom_fields = [];
}

abbrev vpn : Ticket
vpn = opened platform.service (input_of (some ana) body) 102 (generate_tracking_number 2026 3) 1

-- The service has stored the ticket.
vpn_created :
    (on_tickets
      (create platform.year platform.service (input_of (some ana) body))
      (calm clock ids)
      desk).0
    ≡ ok vpn
unfolding create input_of opened announce is_refused on_tickets zoom trim_space byte_length
    utf8_width text_eq find_row Tables.has_status Tables.next_seq Tables.create
    Tables.create_audit_entry raise_if now fresh attempt modify write statement pure ◌>>=◌
vpn_created = refl

create_ticket_answered_example :
    (create_ticket platform (some ana) body (calm clock ids) desk).0 ≡ ok (success 201 vpn)
create_ticket_answered_example =
    create_ticket_answered platform (some ana) body (calm clock ids) desk vpn vpn_created

vpn_answered :
    (handle_create_ticket platform (some ana) (some body) (calm clock ids) desk).0
    ≡ ok (success 201 vpn)
unfolding handle_create_ticket trim_space
vpn_answered = create_ticket_answered platform (some ana) body (calm clock ids) desk vpn vpn_created

create_ticket_ok_example :
    ◌≡◌ {A = ℕ} 201 201
    × (vpn.reporter_user_id ≡ some 7)
    × (vpn.guest_email ≡ none)
    × (vpn.status_id ≡ 1)
    × (vpn.category_id ≡ 5)
    × (vpn.type_id ≡ some 6)
    × (vpn.item_id ≡ (if is_admin ana.role || is_staff ana.role then body.item_id else none))
    × (is_empty vpn.subject ≡ false)
create_ticket_ok_example =
    create_ticket_ok platform ana body (calm clock ids) desk 201 vpn vpn_answered

-- An admin changes the category of a ticket.
abbrev boss : Actor
boss = record { user_id = 8; role = admin; mfa_passed = true; client_id = []; scopes = [] }

abbrev move : Request
move = Request.update (codes "A") (
    some (record {
      status_id = none;
      assignee_user_id = none;
      assignee_group_id = none;
      category_id = some 6;
      type_id = none;
      item_id = none;
    }))

-- The desk with the printer's ticket under the id that "A" stands for.
abbrev letter_desk : World AppDb
letter_desk = record desk {
  db = record desk.db {
    tickets = record desk.db.tickets { tickets = record printer { id = 65 } ∷ [] };
  };
}
