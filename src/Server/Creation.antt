-- ===== src/Server/Creation.antt =====
-- The creation of tickets: `handleCreateTicket` of backend/internal/server/handler_tickets.go. The
-- custom fields of the body come in the order in which Go goes through the map.
pub mod Answers
use open_help_desk.Base.{
  ℕ, suc, ◌%◌, ◌^◌, Bool, true, false, not, ◌||◌, ◌&&◌, Option, none, some, List, [], ◌∷◌, Uuid,
  if◌then◌else◌, ◌==◌, is_none,
}
use open_help_desk.Base.Table.{length, get_elem?}
use open_help_desk.Base.Text.{Text, codes, text_eq, trim_space, is_empty}
use open_help_desk.Exec.{
  Done, validation, Error, Exec, Result, ok, err, pure, try, attempt, modify, ◌>>=◌, ◌>>◌,
}
use open_help_desk.Ticket.{
  Ticket, Priority, critical, high, medium, low, other_priority, priority_text, Role, is_admin,
  is_staff, system_actor,
}
use open_help_desk.Ticket.Service
use open_help_desk.Ticket.Service.Create.{CreateInput, create}
use open_help_desk.Group.{Group}
use open_help_desk.Group.Service as Groups
use open_help_desk.Settings.Service as Settings
use open_help_desk.CustomField.Service as Fields
use open_help_desk.Auth.{Actor}
use open_help_desk.Server.{
  AppDb, Platform, Response, bad_request, failure, Handler, handle_error, answer, on_tickets,
  on_groups, on_settings, on_fields,
}

pub record CreateBody : Type 0 where
  pub subject : Text
  pub description : Text
  pub category_id : Uuid
  pub type_id : Option Uuid
  pub item_id : Option Uuid
  pub priority : Text
  pub guest_email : Text
  pub guest_name : Text
  pub guest_phone : Text
  pub custom_fields : List (Text × Text)

-- `ticket.Priority(…)`, and medium for the empty string
unfoldable pub priority_of : Text → Priority
unfolding text_eq
priority_of t =
    if is_empty t
    then medium
    else if text_eq t (priority_text critical)
    then critical
    else if text_eq t (priority_text high)
    then high
    else if text_eq t (priority_text medium)
    then medium
    else if text_eq t (priority_text low)
    then low
    else other_priority t

abbrev pub lacks_guest : CreateBody → Bool
lacks_guest b = is_empty (trim_space b.guest_email) || is_empty (trim_space b.guest_name)

-- Without an actor, a guest: neither type nor item; a user: no item.
unfoldable pub input_of : Option Actor → CreateBody → CreateInput
unfolding priority_of trim_space
input_of none b = record {
  subject = b.subject;
  description = b.description;
  category_id = b.category_id;
  type_id = none;
  item_id = none;
  priority = priority_of b.priority;
  reporter_user_id = none;
  guest_email = some b.guest_email;
  guest_name = trim_space b.guest_name;
  guest_phone = trim_space b.guest_phone;
}
input_of (some a) b = record {
  subject = b.subject;
  description = b.description;
  category_id = b.category_id;
  type_id = b.type_id;
  item_id = if is_admin a.role || is_staff a.role then b.item_id else none;
  priority = priority_of b.priority;
  reporter_user_id = some a.user_id;
  guest_email = none;
  guest_name = [];
  guest_phone = [];
}

-- A validation error is a bad request here.
abbrev pub creation_error : Error → Response Ticket
creation_error validation = bad_request
creation_error e = handle_error e

abbrev pub proceed_created : Result Ticket → (Ticket → Handler Ticket) → Handler Ticket
proceed_created (ok t) k env w = k t env w
proceed_created (err e) k env w = (ok (creation_error e), w)

unfoldable pub created : Exec AppDb Ticket → (Ticket → Handler Ticket) → Handler Ticket
created m k env w = let (r, w') = m env w in proceed_created r k env w'

-- `rrIdx.Add(1)`, which wraps at 64 bits
unfoldable pub next_turn : Exec AppDb ℕ
next_turn env w =
    let turn = suc w.db.turns % 2 ^ 64 in (ok turn, record w { db = record w.db { turns = turn } })

-- The element of the turn; the list is not empty.
abbrev pub nth_user : List Uuid → ℕ → Option Uuid
nth_user ids n = get_elem? ids (n % length ids)

abbrev pub assign_quietly : Uuid → Option Uuid → Option Uuid → Exec AppDb Done
assign_quietly id user_id group_id =
    attempt (on_tickets (Service.assign id user_id group_id system_actor))

module _ (p : Platform) where
  unfoldable pub assign_round_robin : Uuid → Exec AppDb Done
  unfolding on_settings on_tickets next_turn
  assign_round_robin id = on_settings (Settings.auto_assign_user_ids p.parse_uuid) >>= λ ids.
      if is_none (get_elem? ids 0)
      then pure tt
      else next_turn >>= λ n. assign_quietly id (nth_user ids n) none

  abbrev pub assign_globally : Uuid → Option Uuid → Exec AppDb Done
  assign_globally id (some group_id) = assign_quietly id none (some group_id)
  assign_globally id none = assign_round_robin id

  -- The groups that were found; an error counts as none.
  abbrev pub assign_matched : Uuid → Option (List Group) → Exec AppDb Done
  assign_matched id (some (g ∷ gs)) = assign_quietly id none (some g.id)
  assign_matched id _ = on_settings (Settings.auto_assign_group_id p.parse_uuid) >>= λ group_id.
      assign_globally id group_id

  -- A group in scope first, then the global group, then the users in turn.
  unfoldable pub auto_assign : Ticket → Exec AppDb Done
  unfolding on_groups on_settings on_tickets assign_round_robin
  auto_assign t =
      try (on_groups (Groups.get_groups_for_ticket p.name_le t.category_id t.type_id))
      >>= λ matched. assign_matched t.id matched

  abbrev pub set_field : Uuid → Text → Text → Exec AppDb Done
  set_field id key value = if is_empty value then pure tt else elim (p.parse_uuid key) [
    | none ↦ pure tt
    | some field_def_id ↦ attempt (on_fields (Fields.set_value id field_def_id value))
  ]

  unfoldable pub set_fields : Uuid → List (Text × Text) → Exec AppDb Done
  unfolding on_fields
  set_fields id [] = pure tt
  set_fields id (f ∷ fs) = set_field id f.0 f.1 >> set_fields id fs

  unfoldable pub create_ticket : Option Actor → CreateBody → Handler Ticket
  unfolding input_of created on_tickets auto_assign set_fields
  create_ticket a b =
      created (on_tickets (create p.year p.service (input_of a b)))
        λ t. auto_assign t >> (set_fields t.id b.custom_fields >> answer 201 t)

  abbrev pub create_checked : Option Actor → CreateBody → Handler Ticket
  create_checked a b =
      if is_empty (trim_space b.subject)
      then pure bad_request
      else if b.category_id == 0
      then pure bad_request
      else if is_none a && lacks_guest b
      then pure bad_request
      else create_ticket a b

  abbrev pub with_parsed : Option Actor → Option CreateBody → Handler Ticket
  with_parsed a none = pure bad_request
  with_parsed a (some b) = create_checked a b

  unfoldable pub handle_create_ticket : Option Actor → Option CreateBody → Handler Ticket
  unfolding on_settings create_ticket trim_space
  handle_create_ticket (some a) body = with_parsed (some a) body
  handle_create_ticket none body = on_settings Settings.guest_submission_enabled >>= λ open_.
      if open_ then with_parsed none body else pure (failure 401 (codes "unauthorized"))
