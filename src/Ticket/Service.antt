-- ===== src/Ticket/Service.antt =====
-- The ticket service: backend/internal/domain/ticket/service.go. The dispatcher is fire and forget,
-- so an event counts as handed over; audit, history and SLA failures are dropped, as in the source.
pub mod Create
use open_help_desk.Base.{
  ℕ, Bool, true, false, ◌&&◌, ◌||◌, not, Option, none, some, List, [], ◌∷◌, ◌++◌, Uuid, Time, ltb,
  if◌then◌else◌, ◌==◌, is_none,
}
use open_help_desk.Base.Table.{find_row}
use open_help_desk.Base.Text.{Text, text_eq}
use open_help_desk.Base.Int.{ℤ}
use open_help_desk.Exec.{
  Done, Exec, ok, err, found, pure, raise, raise_if, lift, attempt, modify, now, fresh, zoom,
  forbidden, self_link, ticket_not_closed, system_status, status_in_use, status_not_found, ◌>>=◌,
  ◌>>◌,
}
use open_help_desk.Ticket.{
  Ticket, Status, StatusHistoryEntry, Reply, LinkType, Actor, Role, system_actor, is_user,
  is_custom, status_name_new, status_name_resolved, status_name_closed,
}
use open_help_desk.Ticket.Rules.{can_user_update, can_transition_status}
use open_help_desk.Ticket.Store
use open_help_desk.Ticket.Store.{
  TicketDb, TicketMap, AuditEntry, Action, Event, EventType, ticket_assigned, ticket_status_changed,
  ticket_replied, ticket_resolved, ticket_closed, ticket_reopened, ticket_linked, Payload, nothing,
  new_status, reply_mail, link_target,
}
use open_help_desk.Sla.Store.{SlaDb}
use open_help_desk.Sla.Service.{record_first_response}

-- The system statuses that `LoadSystemStatuses` caches, and whether there is an SLA service.
pub record Service : Type 0 where
  pub new_id : Uuid
  pub resolved_id : Uuid
  pub closed_id : Uuid
  pub resolved : Status
  pub closed : Status
  pub sla_on : Bool

-- `NewService` takes the SLA service or nil, and `LoadSystemStatuses` fills in the rest.
unfoldable pub load_system_statuses : Bool → Exec TicketDb Service
load_system_statuses sla_on = do
  new_st ← Store.get_status_by_name status_name_new
  resolved_st ← Store.get_status_by_name status_name_resolved
  closed_st ← Store.get_status_by_name status_name_closed
  pure (record {
    new_id = new_st.id;
    resolved_id = resolved_st.id;
    closed_id = closed_st.id;
    resolved = resolved_st;
    closed = closed_st;
    sla_on = sla_on;
  })

unfoldable pub dispatch : Event → Exec TicketDb Done
dispatch e = modify (λ s. record s { events = s.events ++ e ∷ [] })

-- An event of now.
unfoldable pub notify : EventType → Uuid → Option Uuid → Payload → Exec TicketDb Done
unfolding dispatch
notify type ticket_id actor_id payload = do
  at ← now
  dispatch (record {
    type = type;
    ticket_id = ticket_id;
    actor_id = actor_id;
    payload = payload;
    occurred_at = at;
  })

unfoldable pub record_status_change : Uuid → Option Uuid → Uuid → Actor → Exec TicketDb Done
record_status_change ticket_id from_status_id to_status_id actor = do
  id ← fresh
  at ← now
  attempt (
      Store.create_status_history_entry (record {
        id = id;
        ticket_id = ticket_id;
        from_status_id = from_status_id;
        to_status_id = to_status_id;
        changed_by_user_id = actor.user_id;
        created_at = at;
      }))

abbrev pub ticket_map : Ticket → TicketMap
ticket_map t = record {
  id = t.id;
  status_id = t.status_id;
  priority = t.priority;
  subject = t.subject;
}

unfoldable pub write_audit :
    Option Uuid → Uuid → Action → Option TicketMap → TicketMap → Exec TicketDb Done
write_audit actor_id entity_id action before after = do
  id ← fresh
  at ← now
  attempt (
      Store.create_audit_entry (record {
        id = id;
        actor_id = actor_id;
        entity_id = entity_id;
        action = action;
        before = before;
        after = after;
        created_at = at;
      }))

abbrev pub status_found : Option Status → Exec TicketDb Status
status_found none = raise status_not_found
status_found (some st) = pure st

unfoldable pub get_status_by_id : Uuid → Exec TicketDb Status
get_status_by_id id = do
  statuses ← Store.list_statuses
  status_found (find_row (λ st. st.id == id) statuses)

unfoldable pub update_status : Uuid → Uuid → Actor → Exec TicketDb Ticket
unfolding get_status_by_id record_status_change write_audit notify
update_status ticket_id new_status_id actor = do
  t ← Store.get_by_id ticket_id
  st ← get_status_by_id new_status_id
  lift (can_transition_status st actor.role)
  at ← now
  let t' = record t { status_id = new_status_id; updated_at = at }
  Store.update t'
  record_status_change t.id (some t.status_id) new_status_id actor
  write_audit actor.user_id t.id Action.status_changed (some (ticket_map t)) (ticket_map t')
  notify ticket_status_changed t.id actor.user_id (new_status new_status_id)
  pure t'

unfoldable pub assign : Uuid → Option Uuid → Option Uuid → Actor → Exec TicketDb Ticket
unfolding write_audit notify
assign ticket_id assignee_user_id assignee_group_id actor = do
  t ← Store.get_by_id ticket_id
  at ← now
  let t' = record t {
    assignee_user_id = assignee_user_id;
    assignee_group_id = assignee_group_id;
    updated_at = at;
  }
  Store.update t'
  write_audit actor.user_id t.id Action.assigned (some (ticket_map t)) (ticket_map t')
  notify ticket_assigned t.id actor.user_id nothing
  pure t'

-- The automatic reopen. The error of the update is dropped.
unfoldable pub reopen_on_reply : Ticket → Uuid → Actor → Exec TicketDb Done
unfolding record_status_change notify
reopen_on_reply t target_status_id actor = do
  at ← now
  attempt (
      Store.update (record t { status_id = target_status_id; resolved_at = none; updated_at = at }))
  record_status_change t.id (some t.status_id) target_status_id actor
  notify ticket_reopened t.id actor.user_id nothing

unfoldable pub first_response : Bool → Uuid → Time → Exec TicketDb Done
unfolding record_first_response
first_response sla_on ticket_id at =
    if sla_on
    then attempt
        (zoom (λ s. s.sla) (λ sla s. record s { sla = sla }) (record_first_response ticket_id at))
    else pure tt

unfoldable pub add_reply :
    Service → Uuid → Text → Bool → Bool → Text → Actor → ℤ → Uuid → Exec TicketDb Reply
unfolding get_status_by_id reopen_on_reply first_response notify
add_reply svc ticket_id body internal notify_customer reporter_email actor reopen_window_days
      target =
    do
      t ← Store.get_by_id ticket_id
      current ← get_status_by_id t.status_id
      clock ← now
      lift (can_user_update t actor.role current reopen_window_days clock)
      id ← fresh
      at ← now
      let reply : Reply = record {
        id = id;
        ticket_id = ticket_id;
        author_id = actor.user_id;
        guest_token = none;
        body = body;
        internal = internal;
        notify_customer = if internal then false else notify_customer;
        created_at = at;
      }
      Store.create_reply reply
      if is_user actor.role && text_eq current.name status_name_resolved
          then reopen_on_reply t target actor
          else pure tt
      if not (is_user actor.role) then first_response svc.sla_on ticket_id at else pure tt
      notify ticket_replied t.id actor.user_id
          (reply_mail (if internal then [] else reporter_email) t.tracking_number t.subject body)
      pure reply

unfoldable pub resolve : Service → Uuid → Text → Actor → Exec TicketDb Ticket
unfolding record_status_change write_audit dispatch
resolve svc ticket_id notes actor = do
  lift (can_transition_status svc.resolved actor.role)
  t ← Store.get_by_id ticket_id
  at ← now
  let t' = record t {
    status_id = svc.resolved_id;
    resolution_notes = some notes;
    resolved_at = some at;
    updated_at = at;
  }
  Store.update t'
  record_status_change t.id (some t.status_id) svc.resolved_id actor
  write_audit actor.user_id t.id Action.resolved (some (ticket_map t)) (ticket_map t')
  dispatch (record {
    type = ticket_resolved;
    ticket_id = t.id;
    actor_id = actor.user_id;
    payload = nothing;
    occurred_at = at;
  })
  pure t'

unfoldable pub close : Service → Uuid → Exec TicketDb Done
unfolding record_status_change dispatch
close svc ticket_id = do
  t ← Store.get_by_id ticket_id
  at ← now
  Store.update (record t { status_id = svc.closed_id; closed_at = some at; updated_at = at })
  record_status_change t.id (some t.status_id) svc.closed_id system_actor
  dispatch (record {
    type = ticket_closed;
    ticket_id = t.id;
    actor_id = none;
    payload = nothing;
    occurred_at = at;
  })

unfoldable pub reopen : Service → Uuid → Uuid → Actor → Exec TicketDb Ticket
unfolding record_status_change write_audit notify
reopen svc ticket_id target_status_id actor = do
  raise_if (is_user actor.role) forbidden
  t ← Store.get_by_id ticket_id
  raise_if (not (t.status_id == svc.closed_id)) ticket_not_closed
  at ← now
  let t' = record t {
    status_id = target_status_id;
    closed_at = none;
    resolved_at = none;
    updated_at = at;
  }
  Store.update t'
  record_status_change t.id (some t.status_id) target_status_id actor
  write_audit actor.user_id t.id Action.reopened (some (ticket_map t)) (ticket_map t')
  notify ticket_reopened t.id actor.user_id nothing
  pure t'

unfoldable pub add_link : Uuid → Uuid → LinkType → Actor → Exec TicketDb Done
unfolding notify
add_link source_id target_id lt actor = do
  raise_if (source_id == target_id) self_link
  Store.create_link
      (record { source_ticket_id = source_id; target_ticket_id = target_id; link_type = lt })
  notify ticket_linked source_id actor.user_id (link_target target_id lt)

unfoldable pub remove_link : Uuid → Uuid → LinkType → Exec TicketDb Done
remove_link source_id target_id lt =
    Store.delete_link
      (record { source_ticket_id = source_id; target_ticket_id = target_id; link_type = lt })

unfoldable pub update_cti : Uuid → Uuid → Option Uuid → Option Uuid → Exec TicketDb Ticket
update_cti id category_id type_id item_id = do
  Store.update_cti id category_id type_id item_id
  Store.get_by_id id

unfoldable pub add_status : Status → Exec TicketDb Done
add_status st = Store.create_status (record st { active = true })

unfoldable pub save_status : Status → Exec TicketDb Done
save_status st = Store.update_status st

unfoldable pub remove_status : Uuid → Exec TicketDb Done
unfolding get_status_by_id
remove_status id = do
  st ← get_status_by_id id
  raise_if (not (is_custom st.kind)) system_status
  count ← Store.count_by_status id
  raise_if (ltb 0 count) status_in_use
  Store.delete_status id
