-- ===== src/Server/Authority.antt =====
-- What the handlers of backend/internal/server/handler_tickets.go let an actor do.
use open_help_desk.Base.{
  ℕ, suc, ◌≡◌, inl, inr, false, ◌||◌, none, some, Uuid, Time, arith, Bool-cases, if◌then◌else◌,
  ◌==◌,
}
use open_help_desk.Base.Text.{Text, trim_space, is_empty}
use open_help_desk.Exec.{
  Error, Env, World, ok, pure, raise_if, zoom, now, fresh, statement, Result-cases, ◌>>=◌,
}
use open_help_desk.Ticket.{Ticket, is_admin, is_staff}
use open_help_desk.Ticket.Tracking.{generate_tracking_number}
use open_help_desk.Ticket.Store as Tables
use open_help_desk.Ticket.Store.{TicketDb}
use open_help_desk.Ticket.Service.{Service}
use open_help_desk.Ticket.Service.Create.{CreateInput, create, opened, announce, is_refused}
use open_help_desk.Auth.{Actor}
use open_help_desk.Server.{AppDb, Platform, success, handle_error, on_tickets}
use open_help_desk.Server.Creation.{
  CreateBody, input_of, created, creation_error, create_ticket, handle_create_ticket,
}
use open_help_desk.Server.Creation.Answers.{create_ticket_answered}

-- What `Create` returns is the ticket that it has opened.
abbrev pub IsOpened : Service → CreateInput → Ticket → Type 0
IsOpened svc input t =
    (id : Uuid) × (tracking_number : Text) × (at : Time) × (t
      ≡ opened svc input id tracking_number at)

create-IsOpened :
    (year : Time → ℕ) (svc : Service) (input : CreateInput) (env : Env) (w : World TicketDb)
    (t : Ticket)
    → (create year svc input env w).0 ≡ ok t
    → IsOpened svc input t
unfolding create raise_if now fresh Tables.next_seq Tables.create statement pure ◌>>=◌
create-IsOpened year svc input env w t h =
    let c = w.calls in
    let at = env.now_at (suc c) in
    let tn = generate_tracking_number (year at) (suc w.db.seq) in
    let t0 = opened svc input (env.uuid_at (suc (suc c))) tn at in
    let v : World TicketDb = record {
      db = record w.db { seq = suc w.db.seq };
      calls = suc (suc (suc c));
    } in
    let refused = Bool-cases (is_refused input) in
    let unnumbered = Bool-cases (env.fails_at c) in
    let same : t ≡ t0 = elim (Result-cases (Tables.create t0 env v).0) [
      | inl (d, stored) ↦
          let announced = Result-cases (announce svc input t0 env (Tables.create t0 env v).1).0 in
          ground arith
      | inr (e, failed) ↦ absurd (ground arith)
    ] in
    (env.uuid_at (suc (suc c)), tn, at, same)

creation_error_fails : (e : Error) (n : ℕ) (t : Ticket) → creation_error e ≡ success n t → ⊥
unfolding handle_error
creation_error_fails e n t h = ground arith

module _ (p : Platform) (a : Actor) (b : CreateBody) where
  created_or_failed :
      (env : Env) (w : World AppDb) (n : ℕ) (t : Ticket)
      → (create_ticket p (some a) b env w).0 ≡ ok (success n t)
      → (n ≡ 201) × ((on_tickets (create p.year p.service (input_of (some a) b)) env w).0 ≡ ok t)
  unfolding create_ticket created
  created_or_failed env w n t h =
      elim (Result-cases (on_tickets (create p.year p.service (input_of (some a) b)) env w).0) [
        | inl (u, made) ↦
            let answer = create_ticket_answered p (some a) b env w u made in ground arith
        | inr (e, failed) ↦ absurd (creation_error_fails e n t (ground arith))
      ]

  -- A ticket that an actor creates is reported by the actor, has the status of new tickets and the
  -- category and the type of the request, and the item of the request only if the actor is an admin
  -- or staff; it is never a guest's, and its subject is not empty.
  pub create_ticket_ok :
      (env : Env) (w : World AppDb) (n : ℕ) (t : Ticket)
      → (handle_create_ticket p (some a) (some b) env w).0 ≡ ok (success n t)
      → (n ≡ 201)
        × (t.reporter_user_id ≡ some a.user_id)
        × (t.guest_email ≡ none)
        × (t.status_id ≡ p.service.new_id)
        × (t.category_id ≡ b.category_id)
        × (t.type_id ≡ b.type_id)
        × (t.item_id ≡ (if is_admin a.role || is_staff a.role then b.item_id else none))
        × (is_empty t.subject ≡ false)
  unfolding handle_create_ticket on_tickets zoom opened input_of pure
  create_ticket_ok env w n t h =
      let v : World TicketDb = record { db = w.db.tickets; calls = w.calls } in
      let titled = Bool-cases (is_empty (trim_space b.subject)) in
      let filed = Bool-cases (b.category_id == 0) in
      let (status, made) = created_or_failed env w n t (ground arith) in
      let (id, tn, at, same) =
        create-IsOpened p.year p.service (input_of (some a) b) env v t made in
      ground arith
