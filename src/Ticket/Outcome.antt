-- ===== src/Ticket/Outcome.antt =====
-- Successful operations of backend/internal/domain/ticket/service.go: what they return is what the
-- table then holds.
use open_help_desk.Base.{
  suc, ◌≡◌, ◌⊎◌, true, false, Option, none, some, inl, inr, Uuid, Time, arith, Option-cases, ◌==◌,
}
use open_help_desk.Base.Table.{find_row}
use open_help_desk.Base.Text.{Text, text_eq}
use open_help_desk.Exec.{Env, World, ok, ◌>>=◌}
use open_help_desk.Ticket.{Ticket, Status, Role, Actor, is_user, is_admin, status_name_closed}
use open_help_desk.Ticket.Rules.{can_transition_status}
use open_help_desk.Ticket.Store
use open_help_desk.Ticket.Store.{TicketDb, has_id, ticket_columns}
use open_help_desk.Ticket.Service
use open_help_desk.Ticket.Service.{Service}
use open_help_desk.Ticket.Authority.{can_transition_status_iff}
use open_help_desk.Ticket.Rows.{find_row-write_back}

-- The row of a ticket holds what an operation returned; the time of the update is the store's.
abbrev pub IsStored : Uuid → Ticket → TicketDb → Type 0
IsStored id t s =
    (at : Time) × (find_row (has_id id) s.tickets ≡ some (record t { updated_at = at }))

-- The row that an operation has read.
abbrev pub row_of : Uuid → World TicketDb → Option Ticket
row_of id w = find_row (has_id id) w.db.tickets

abbrev resolved_as : Service → Text → Time → Ticket → Ticket
resolved_as svc notes at t = record t {
  status_id = svc.resolved_id;
  resolution_notes = some notes;
  resolved_at = some at;
  updated_at = at;
}

abbrev reopened_as : Uuid → Time → Ticket → Ticket
reopened_as target at t = record t {
  status_id = target;
  closed_at = none;
  resolved_at = none;
  updated_at = at;
}

abbrev moved_to : Uuid → Time → Ticket → Ticket
moved_to status at t = record t { status_id = status; updated_at = at }

abbrev assigned_to : Option Uuid → Option Uuid → Time → Ticket → Ticket
assigned_to u g at t = record t { assignee_user_id = u; assignee_group_id = g; updated_at = at }

-- How a resolved ticket differs from the row that was read, and who may resolve.
abbrev pub IsResolution : Service → Text → Actor → Ticket → Ticket → Type 0
IsResolution svc notes actor t t' =
    (is_user actor.role ≡ false) × ((at : Time) × (t' ≡ resolved_as svc notes at t))

can_transition_status_ok :
    (st : Status) (role : Role)
    → can_transition_status st role ≡ ok tt
    → (is_user role ≡ false)
      × ((text_eq st.name status_name_closed ≡ false) ⊎ (is_admin role ≡ true))
can_transition_status_ok st role = (can_transition_status_iff st role).0

module _ (env : Env) (w : World TicketDb) (t' : Ticket) where
  -- Whoever succeeds in resolving a ticket is not a plain user, and the result, which the table
  -- then holds, is the row that was read with the resolved status, the notes and the time.
  pub resolve_ok :
      (svc : Service) (id : Uuid) (notes : Text) (actor : Actor)
      → (Service.resolve svc id notes actor env w).0 ≡ ok t'
      → IsStored id t' (Service.resolve svc id notes actor env w).1.db
        × ((t : Ticket) × (row_of id w ≡ some t) × IsResolution svc notes actor t t')
  unfolding Service.resolve Store.get_by_id Store.update Store.create_status_history_entry
      Store.create_audit_entry can_transition_status ◌>>=◌
  resolve_ok svc id notes actor h = elim (Option-cases (row_of id w)) [
    | inl missing ↦ absurd (ground arith)
    | inr (t, e) ↦
        let back =
          find_row-write_back id w.db.tickets t (resolved_as svc notes (env.now_at (suc w.calls)) t)
            (env.now_at (suc (suc w.calls))) e in
        (
          (env.now_at (suc (suc w.calls)), ground arith),
          (t, e, (ground arith, (env.now_at (suc w.calls), ground arith))),
        )
  ]

  -- Whoever succeeds in reopening a ticket is not a plain user, the ticket was closed, and the
  -- result, which the table then holds, is the row that was read with the target status and
  -- without the times of its resolution and closing.
  reopen_ok :
      (svc : Service) (id target : Uuid) (actor : Actor)
      → (Service.reopen svc id target actor env w).0 ≡ ok t'
      → IsStored id t' (Service.reopen svc id target actor env w).1.db
        × ((t : Ticket) × (row_of id w ≡ some t)
            × (is_user actor.role ≡ false)
            × (t.status_id ≡ svc.closed_id)
            × ((at : Time) × (t' ≡ reopened_as target at t)))
  unfolding Service.reopen Store.get_by_id Store.update Store.create_status_history_entry
      Store.create_audit_entry ◌>>=◌
  reopen_ok svc id target actor h = elim (Option-cases (row_of id w)) [
    | inl missing ↦ absurd (ground arith)
    | inr (t, e) ↦
        let back =
          find_row-write_back id w.db.tickets t (reopened_as target (env.now_at (suc w.calls)) t)
            (env.now_at (suc (suc w.calls))) e in
        (
          (env.now_at (suc (suc w.calls)), ground arith),
          (t, e, ground arith, ground arith, (env.now_at (suc w.calls), ground arith)),
        )
  ]

  module _ (id status : Uuid) (actor : Actor) (t : Ticket) (st : Status) (e : row_of id w ≡ some t)
      (f : find_row (λ q. q.id == status) w.db.statuses ≡ some st)
      (h : (Service.update_status id status actor env w).0 ≡ ok t') where
    update_status-IsStored : IsStored id t' (Service.update_status id status actor env w).1.db
    unfolding Service.update_status Store.get_by_id Store.list_statuses Store.update
        Store.create_status_history_entry Store.create_audit_entry ◌>>=◌
    update_status-IsStored =
        let back =
          find_row-write_back id w.db.tickets t (moved_to status (env.now_at (suc (suc w.calls))) t)
            (env.now_at (suc (suc (suc w.calls)))) e in
        (env.now_at (suc (suc (suc w.calls))), ground arith)

    update_status-moved :
        (can_transition_status st actor.role ≡ ok tt)
        × (t' ≡ moved_to status (env.now_at (suc (suc w.calls))) t)
    unfolding Service.update_status Store.get_by_id Store.list_statuses Store.update ◌>>=◌
    update_status-moved = ground arith

  -- Whoever succeeds in moving a ticket to a status is no plain user, and an admin where the status
  -- is named Closed; the result, which the table then holds, is the row that was read with that
  -- status: the times of its resolution and closing stay as they were.
  pub update_status_ok :
      (id status : Uuid) (actor : Actor)
      → (Service.update_status id status actor env w).0 ≡ ok t'
      → IsStored id t' (Service.update_status id status actor env w).1.db
        × ((t : Ticket) × (st : Status) × (row_of id w ≡ some t)
            × (find_row (λ q. q.id == status) w.db.statuses ≡ some st)
            × (is_user actor.role ≡ false)
            × ((text_eq st.name status_name_closed ≡ false) ⊎ (is_admin actor.role ≡ true))
            × ((at : Time) × (t' ≡ moved_to status at t)))
  update_status_ok id status actor h = elim (Option-cases (row_of id w)) [
    | inl missing ↦ absurd (unfold Service.update_status Store.get_by_id ◌>>=◌ in ground arith)
    | inr (t, e) ↦ elim (Option-cases (find_row (λ q. q.id == status) w.db.statuses)) [
      | inl unknown ↦
          absurd
            (unfold Service.update_status Store.get_by_id Store.list_statuses ◌>>=◌ in ground arith)
      | inr (st, f) ↦
          let moved = update_status-moved id status actor t st e f h in
          (
            update_status-IsStored id status actor t st e f h,
            (
              t,
              st,
              e,
              f,
              (can_transition_status_ok st actor.role moved.0).0,
              (can_transition_status_ok st actor.role moved.0).1,
              (env.now_at (suc (suc w.calls)), moved.1),
            ),
          )
    ]
  ]

  -- A successful assignment changes the assignees of the row that was read, and the table then
  -- holds the result.
  assign_ok :
      (id : Uuid) (u g : Option Uuid) (actor : Actor)
      → (Service.assign id u g actor env w).0 ≡ ok t'
      → IsStored id t' (Service.assign id u g actor env w).1.db
        × ((t : Ticket) × (row_of id w ≡ some t) × ((at : Time) × (t' ≡ assigned_to u g at t)))
  unfolding Service.assign Store.get_by_id Store.update Store.create_audit_entry ◌>>=◌
  assign_ok id u g actor h = elim (Option-cases (row_of id w)) [
    | inl missing ↦ absurd (ground arith)
    | inr (t, e) ↦
        let back =
          find_row-write_back id w.db.tickets t (assigned_to u g (env.now_at (suc w.calls)) t)
            (env.now_at (suc (suc w.calls))) e in
        (
          (env.now_at (suc (suc w.calls)), ground arith),
          (t, e, (env.now_at (suc w.calls), ground arith)),
        )
  ]
