-- ===== src/Ticket/Replying.antt =====
-- Replies: `AddReply` of backend/internal/domain/ticket/service.go.
use open_help_desk.Base.{
  ℕ, zero, suc, ◌≡◌, refl, Bool, true, false, none, some, List, [], ◌∷◌, ◌++◌, Uuid, Time, arith,
  if◌then◌else◌, ◌==◌,
}
use open_help_desk.Base.Table.{find_row}
use open_help_desk.Base.Text.{Text, text_eq}
use open_help_desk.Base.Int.{ℤ}
use open_help_desk.Exec.{World, calm, ok, ◌>>=◌}
use open_help_desk.Ticket.{
  Ticket, Reply, Status, Actor, is_user, status_name_resolved, status_name_closed,
}
use open_help_desk.Ticket.Rules.{can_user_update}
use open_help_desk.Ticket.Store
use open_help_desk.Ticket.Store.{
  TicketDb, Event, EventType, ticket_reopened, ticket_replied, nothing, reply_mail, has_id,
  has_status, ticket_columns,
}
use open_help_desk.Ticket.Service
use open_help_desk.Ticket.Service.{Service}
use open_help_desk.Ticket.Rows.{find_row-write_back}
use open_help_desk.Ticket.Outcome.{row_of}

-- The number of the call that is made `k` calls later.
abbrev after : ℕ → ℕ → ℕ
after zero n = n
after (suc k) n = suc (after k n)

abbrev reopened_by_reply : Uuid → Time → Ticket → Ticket
reopened_by_reply target at t = record t { status_id = target; resolved_at = none; updated_at = at }

-- The types of the events that were handed over.
abbrev pub event_types : List Event → List EventType
event_types [] = []
event_types (e ∷ es) = e.type ∷ event_types es

module _ (now_at : ℕ → Time) (uuid_at : ℕ → Uuid) (w : World TicketDb) (svc : Service) (t : Ticket)
    (st : Status) (id : Uuid) (body to : Text) (internal mail : Bool) (actor : Actor) (days : ℤ)
    (target : Uuid) (found : row_of id w ≡ some t)
    (current : find_row (λ q. q.id == t.status_id) w.db.statuses ≡ some st)
    (resolved : text_eq st.name status_name_resolved ≡ true) (by_user : is_user actor.role ≡ true)
    (allowed : can_user_update t actor.role st days (now_at (after 2 w.calls)) ≡ ok tt) where
  -- A user's reply that is allowed on a Resolved ticket moves the ticket to the target status and
  -- clears the time of its resolution, if the target exists and no statement is refused.
  pub reply_reopens :
      has_status target w.db.statuses ≡ true
      → let s =
          (Service.add_reply svc id body internal mail to actor days target
            (calm now_at uuid_at)
            w).1.db in
        (at : Time) × (find_row (has_id id) s.tickets ≡ some (reopened_by_reply target at t))
  unfolding Service.add_reply Store.get_by_id Store.list_statuses Store.create_reply Store.update
      Store.create_status_history_entry ◌>>=◌
  reply_reopens known =
      let back =
        find_row-write_back id w.db.tickets t
          (reopened_by_reply target (now_at (after 6 w.calls)) t) (now_at (after 7 w.calls))
          found in
      (now_at (after 7 w.calls), ground arith)

  -- If no statement is refused, a user's reply that is allowed on a Resolved ticket, where the target
  -- status does not exist, leaves every ticket as it was, and all the same hands over the event that
  -- the ticket was reopened, before that of the reply.
  pub reply_without_target :
      has_status target w.db.statuses ≡ false
      → let s =
          (Service.add_reply svc id body internal mail to actor days target
            (calm now_at uuid_at)
            w).1.db in
        (s.tickets ≡ w.db.tickets)
        × (s.events
            ≡ (w.db.events
                ++ record {
                  type = ticket_reopened;
                  ticket_id = t.id;
                  actor_id = actor.user_id;
                  payload = nothing;
                  occurred_at = now_at (after 12 w.calls);
                }
                  ∷ [])
              ++ record {
                type = ticket_replied;
                ticket_id = t.id;
                actor_id = actor.user_id;
                payload = reply_mail (if internal then [] else to) t.tracking_number t.subject body;
                occurred_at = now_at (after 13 w.calls);
              }
                ∷ [])
  unfolding Service.add_reply Store.get_by_id Store.list_statuses Store.create_reply Store.update
      Store.create_status_history_entry ◌>>=◌
  reply_without_target unknown = (ground arith, ground arith)

module _ (now_at : ℕ → Time) (uuid_at : ℕ → Uuid) (w : World TicketDb) (svc : Service) (t : Ticket)
    (st : Status) (id : Uuid) (body to : Text) (internal mail : Bool) (actor : Actor) (days : ℤ)
    (target : Uuid) (found : row_of id w ≡ some t)
    (current : find_row (λ q. q.id == t.status_id) w.db.statuses ≡ some st)
    (not_closed : text_eq st.name status_name_closed ≡ false)
    (not_resolved : text_eq st.name status_name_resolved ≡ false)
    (plain : is_user actor.role ≡ true) where
  -- On a ticket that is neither Resolved nor Closed every user may reply, the reporter or not: the
  -- reply is stored last, and the tickets stay as they are, if no statement is refused.
  pub reply_by_any_user :
      let (r, v) =
        Service.add_reply svc id body internal mail to actor days target (calm now_at uuid_at) w in
      (reply : Reply) × (r ≡ ok reply)
      × (v.db.replies ≡ w.db.replies ++ reply ∷ [])
      × (reply.author_id ≡ actor.user_id)
      × (v.db.tickets ≡ w.db.tickets)
  unfolding Service.add_reply Store.get_by_id Store.list_statuses Store.create_reply can_user_update
      ◌>>=◌
  reply_by_any_user = (
    record {
      id = uuid_at (after 3 w.calls);
      ticket_id = id;
      author_id = actor.user_id;
      guest_token = none;
      body = body;
      internal = internal;
      notify_customer = if internal then false else mail;
      created_at = now_at (after 4 w.calls);
    },
    ground arith,
    ground arith,
    refl,
    ground arith,
  )
