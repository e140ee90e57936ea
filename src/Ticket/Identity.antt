-- ===== src/Ticket/Identity.antt =====
-- What an open ticket keeps for good: the columns that backend/internal/domain/ticket/service.go
-- writes once, when a ticket is opened.
use open_help_desk.Base.{ℕ, ◌≡◌, refl, Bool, Option, List, [], ◌∷◌, Uuid, Time, map, arith}
use open_help_desk.Base.Table.{update_rows}
use open_help_desk.Base.Text.{Text}
use open_help_desk.Exec.{Env, World, now}
use open_help_desk.Exec.Keeps.{
  Keeps, Keeps-bind, Keeps-now, Keeps-statement, Keeps-checked, Keeps-write, Keeps-modify,
}
use open_help_desk.Ticket.{Ticket}
use open_help_desk.Ticket.Store
use open_help_desk.Ticket.Store.{TicketDb, ticket_columns, cti_columns, has_id}
use open_help_desk.Ticket.Service.{Service, dispatch}
use open_help_desk.Ticket.Operation.{Change, run_change}
use open_help_desk.Ticket.Stable.{IsStable, run_change-Keeps}

pub record Identity : Type 0 where
  pub id : Uuid
  pub tracking_number : Text
  pub reporter_user_id : Option Uuid
  pub guest_email : Option Text
  pub guest_name : Text
  pub guest_phone : Text
  pub created_at : Time

abbrev pub identity : Ticket → Identity
identity t = record {
  id = t.id;
  tracking_number = t.tracking_number;
  reporter_user_id = t.reporter_user_id;
  guest_email = t.guest_email;
  guest_name = t.guest_name;
  guest_phone = t.guest_phone;
  created_at = t.created_at;
}

map-update_rows {ℓ} :
    {B : Type ℓ} (f : Ticket → B) (test : Ticket → Bool) (change : Ticket → Ticket)
    (ts : List Ticket)
    → ((t : Ticket) → f (change t) ≡ f t)
    → map f (update_rows test change ts) ≡ map f ts
unfolding update_rows
map-update_rows f test change [] h = refl
map-update_rows f test change (t ∷ ts) h = ground (arith, h t, map-update_rows f test change ts h)

-- The identities of all rows, in their order, and the sequence.
abbrev pub HasIdentities : List Identity → ℕ → TicketDb → Type 0
HasIdentities ids n s = (map identity s.tickets ≡ ids) × (s.seq ≡ n)

module _ (ids : List Identity) (n : ℕ) where
  update-HasIdentities : (t : Ticket) → Keeps (HasIdentities ids n) (Store.update t)
  unfolding Store.update
  update-HasIdentities t = Keeps-bind now _ Keeps-now λ at. Keeps-statement _ λ s h.
      let e =
        map-update_rows identity (has_id t.id) (ticket_columns t at) s.tickets (λ old. refl) in
      ground arith

  update_cti-HasIdentities :
      (id c : Uuid) (t i : Option Uuid) → Keeps (HasIdentities ids n) (Store.update_cti id c t i)
  unfolding Store.update_cti
  update_cti-HasIdentities id c t i = Keeps-bind now _ Keeps-now λ at. Keeps-write _ λ s h.
      let e = map-update_rows identity (has_id id) (cti_columns c t i at) s.tickets (λ old. refl) in
      ground arith

  pub HasIdentities-IsStable : IsStable (HasIdentities ids n)
  unfolding Store.create_status_history_entry Store.create_reply Store.create_audit_entry dispatch
      Store.create_link Store.delete_link Store.create_status Store.update_status
      Store.delete_status
  HasIdentities-IsStable = record {
    update = update-HasIdentities;
    update_cti = update_cti-HasIdentities;
    history = λ e. Keeps-checked _ _ _ _ (λ s h. h);
    reply = λ r quiet. Keeps-write _ (λ s h. h);
    audit = λ e. Keeps-write _ (λ s h. h);
    event = λ e. Keeps-modify _ (λ s h. h);
    sla = λ sla s h. h;
    create_link = λ l. Keeps-checked _ _ _ _ (λ s h. h);
    delete_link = λ l. Keeps-write _ (λ s h. h);
    create_status = λ st. Keeps-checked _ _ _ _ (λ s h. h);
    update_status = λ st. Keeps-checked _ _ _ _ (λ s h. h);
    delete_status = λ id. Keeps-checked _ _ _ _ (λ s h. h);
  }

-- No operation on tickets, whether it succeeds or fails and whatever the database refuses, adds or
-- removes a ticket or changes one's id, tracking number, reporter, guest data or time of creation.
identities-run_change :
    (svc : Service) (c : Change) (env : Env) (w : World TicketDb)
    → map identity (run_change svc c env w).1.db.tickets ≡ map identity w.db.tickets
identities-run_change svc c env w =
    ((run_change-Keeps (HasIdentities-IsStable (map identity w.db.tickets) w.db.seq) svc c).at env w
      (refl, refl)).0
