-- ===== src/Server/Assignment.antt =====
-- Who gets a new ticket: the automatic assignment of `handleCreateTicket` of
-- backend/internal/server/handler_tickets.go.
pub mod Fairness
use open_help_desk.Base.{
  ℕ, suc, ◌%◌, ◌^◌, ◌≡◌, refl, inl, inr, Bool, true, false, Option, none, some, List, [], ◌∷◌, Uuid,
  Time, arith, Bool-cases, Option-cases, if◌then◌else◌, ◌==◌, is_none, is_some,
}
use open_help_desk.Base.Table.{find_row, length, get_elem?}
use open_help_desk.Base.Text.{Text, is_empty}
use open_help_desk.Exec.{
  Env, World, calm, ok, err, pure, try, attempt, modify, lift, now, fresh, zoom, query, statement,
  ◌>>=◌,
}
use open_help_desk.Ticket.{Ticket, Actor, system_actor}
use open_help_desk.Ticket.Rows.{find_row-write_back}
use open_help_desk.Ticket.Store as Tickets
use open_help_desk.Ticket.Store.{TicketDb, has_id, has_status, ticket_columns}
use open_help_desk.Ticket.Service
use open_help_desk.Group.{Group}
use open_help_desk.Group.Store as Groups
use open_help_desk.Group.Store.{GroupDb, joined, covers}
use open_help_desk.Group.Service.{get_groups_for_ticket}
use open_help_desk.Settings.{to_text, to_texts}
use open_help_desk.Settings.Key
use open_help_desk.Settings.Store.{SettingsDb, lookup}
use open_help_desk.Settings.Reading.{decoded, text_at-calm, texts_at-calm}
use open_help_desk.Settings.Service.{auto_assign_group_id, auto_assign_user_ids, parse_all}
use open_help_desk.Server.{AppDb, Platform, on_tickets, on_groups, on_settings}
use open_help_desk.Server.Creation.{
  auto_assign, assign_matched, assign_globally, assign_round_robin, assign_quietly, next_turn,
  nth_user,
}

-- The ticket has these assignees.
abbrev pub IsAssignedTo : Uuid → Option Uuid → Option Uuid → TicketDb → Type 0
IsAssignedTo id u g s =
    (t : Ticket) × (find_row (has_id id) s.tickets ≡ some t)
    × (t.assignee_user_id ≡ u)
    × (t.assignee_group_id ≡ g)

-- The ticket and its status stand in the tables.
abbrev pub IsKept : Uuid → TicketDb → Type 0
IsKept id s =
    (t : Ticket) × (find_row (has_id id) s.tickets ≡ some t)
    × (has_status t.status_id s.statuses ≡ true)

module _ (now_at : ℕ → Time) (uuid_at : ℕ → Uuid) where
  assign-IsAssignedTo :
      (id : Uuid) (u g : Option Uuid) (actor : Actor) (w : World TicketDb)
      → IsKept id w.db
      → IsAssignedTo id u g (Service.assign id u g actor (calm now_at uuid_at) w).1.db
  unfolding Service.assign Tickets.get_by_id Tickets.update Tickets.create_audit_entry
      ticket_columns query statement now fresh attempt modify pure ◌>>=◌
  assign-IsAssignedTo id u g actor w (t, there, status) =
      let at = now_at (suc w.calls) in
      let later = now_at (suc (suc w.calls)) in
      let t' : Ticket = record t { assignee_user_id = u; assignee_group_id = g; updated_at = at } in
      let back = find_row-write_back id w.db.tickets t t' later there in
      (ticket_columns t' later t, ground arith, refl, refl)

  pub quietly-IsAssignedTo :
      (id : Uuid) (u g : Option Uuid) (w : World AppDb)
      → IsKept id w.db.tickets
      → IsAssignedTo id u g (assign_quietly id u g (calm now_at uuid_at) w).1.db.tickets
  unfolding on_tickets zoom attempt
  quietly-IsAssignedTo id u g w kept =
      assign-IsAssignedTo id u g system_actor (record { db = w.db.tickets; calls = w.calls }) kept

module _ (p : Platform) where
  -- The group that the settings name, and the users.
  abbrev pub configured_group : SettingsDb → Option Uuid
  configured_group s =
      let v = decoded [] to_text (lookup Key.auto_assign_group_id s.settings) in
      if is_empty v then none else p.parse_uuid v

  abbrev pub configured_users : SettingsDb → List Uuid
  configured_users s =
      parse_all p.parse_uuid (decoded [] to_texts (lookup Key.auto_assign_user_ids s.settings))

  -- The groups whose scopes cover the ticket, by name.
  abbrev pub groups_for : Ticket → GroupDb → List Group
  groups_for t s = joined p.name_le (covers t.category_id t.type_id) s

  -- The user and the group that a ticket is given to, in the order of precedence: the first group that
  -- is responsible, the group of the settings, the user whose turn it is.
  abbrev pub assignees :
      List Group → Option Uuid → List Uuid → ℕ → Option (Option Uuid × Option Uuid)
  assignees (g ∷ gs) group users turn = some (none, some g.id)
  assignees [] (some id) users turn = some (none, some id)
  assignees [] none (id ∷ ids) turn = some (nth_user (id ∷ ids) turn, none)
  assignees [] none [] turn = none

  -- With assignees, the ticket has them afterwards; with none, nothing has changed.
  abbrev pub IsAssignment : Option (Option Uuid × Option Uuid) → Uuid → AppDb → AppDb → Type 0
  IsAssignment none id before after = after ≡ before
  IsAssignment (some (u, g)) id before after = IsAssignedTo id u g after.tickets

  module _ (now_at : ℕ → Time) (uuid_at : ℕ → Uuid) (t : Ticket) (w : World AppDb)
      (kept : IsKept t.id w.db.tickets) where
    assigned_by :
        (gs : List Group) (group : Option Uuid) (users : List Uuid)
        → groups_for t w.db.groups ≡ gs
        → configured_group w.db.settings ≡ group
        → configured_users w.db.settings ≡ users
        → IsAssignment
            (assignees gs group users (suc w.db.turns % 2 ^ 64))
            t.id
            w.db
            (auto_assign p t (calm now_at uuid_at) w).1.db
    unfolding auto_assign on_groups on_settings get_groups_for_ticket Groups.list_groups_in_scope
        auto_assign_group_id assign_round_robin auto_assign_user_ids next_turn try zoom query
        statement pure ◌>>=◌
    assigned_by (g ∷ gs) group users e f h = rw e (
        quietly-IsAssignedTo now_at uuid_at t.id none (some g.id) (record w { calls = suc w.calls })
          kept)
    assigned_by [] (some id) users e f h = rw e (
        rw text_at-calm (
          rw f (
            quietly-IsAssignedTo now_at uuid_at t.id none (some id)
              (record w { calls = suc (suc w.calls) }) kept)))
    assigned_by [] none (id ∷ ids) e f h = rw e (
        rw text_at-calm (
          rw f (
            rw texts_at-calm (
              rw h (
                quietly-IsAssignedTo now_at uuid_at t.id _ none
                  (record w { calls = suc (suc (suc w.calls)) }) kept)))))
    assigned_by [] none [] e f h = rw e (rw text_at-calm (rw f (rw texts_at-calm (rw h refl))))

    -- If the database refuses nothing and the ticket and its status are stored, the automatic
    -- assignment gives the ticket to the first group, by name, that has a scope for it; if there is
    -- none, to the group of the settings; if the settings have none, to the user of their list whose
    -- turn it is; and if the list is empty, it changes nothing.
    pub auto_assign_ok :
        IsAssignment
          (assignees
            (groups_for t w.db.groups)
            (configured_group w.db.settings)
            (configured_users w.db.settings)
            (suc w.db.turns % 2 ^ 64))
          t.id
          w.db
          (auto_assign p t (calm now_at uuid_at) w).1.db
    auto_assign_ok = assigned_by _ _ _ refl refl refl
