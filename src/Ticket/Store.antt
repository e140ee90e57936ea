-- ===== src/Ticket/Store.antt =====
-- The tables of tickets and statuses: backend/internal/database/ticketstore/ticketstore.go, with
-- the statements of backend/queries/tickets.sql, statuses.sql and status_history.sql. The state
-- holds beside them the audit log, the events handed to the dispatcher and the SLA tables.
use open_help_desk.Base.{
  ℕ, suc, Bool, true, false, ◌&&◌, ◌||◌, not, Option, none, some, List, [], ◌∷◌, ◌++◌, Uuid, Time,
  if◌then◌else◌, ◌==◌, is_none, is_some, ltb,
}
use open_help_desk.Base.Table.{find_row, select_rows, update_rows, delete_rows, count_rows}
use open_help_desk.Base.Text.{Text, text_eq}
use open_help_desk.Base.Int.{to_int32}
use open_help_desk.Exec.{Done, Exec, ok, err, database, found, statement, query, write, now, ◌>>=◌}
use open_help_desk.Ticket.{
  Ticket, Status, StatusHistoryEntry, Reply, TicketLink, LinkType, Attachment, Priority, link_text,
  is_custom,
}
use open_help_desk.Sla.Store.{SlaDb}

-- The fields that `ticketMap` writes to the audit log.
pub record TicketMap : Type 0 where
  pub id : Uuid
  pub status_id : Uuid
  pub priority : Priority
  pub subject : Text

pub data Action : Type 0 where
  created status_changed assigned resolved reopened : Action

pub record AuditEntry : Type 0 where
  pub id : Uuid
  pub actor_id : Option Uuid
  pub entity_id : Uuid
  pub action : Action
  pub before : Option TicketMap
  pub after : TicketMap
  pub created_at : Time

pub data EventType : Type 0 where
  ticket_created ticket_assigned ticket_status_changed ticket_replied : EventType
  ticket_resolved ticket_closed ticket_reopened ticket_linked : EventType

pub data Payload : Type 0 where
  nothing : Payload
  new_status : Uuid → Payload
  reply_mail : Text → Text → Text → Text → Payload
  link_target : Uuid → LinkType → Payload

pub record Event : Type 0 where
  pub type : EventType
  pub ticket_id : Uuid
  pub actor_id : Option Uuid
  pub payload : Payload
  pub occurred_at : Time

pub record TicketDb : Type 0 where
  pub tickets : List Ticket
  pub statuses : List Status
  pub history : List StatusHistoryEntry
  pub replies : List Reply
  pub links : List TicketLink
  pub attachments : List Attachment
  -- the last value that the sequence `ticket_seq` has given out
  pub seq : ℕ
  pub audit : List AuditEntry
  pub events : List Event
  pub sla : SlaDb

-- `WHERE id = $1`
abbrev pub has_id : Uuid → Ticket → Bool
has_id id t = t.id == id

-- `CreateTicket` names no column for the notes and the two times, which start as NULL.
unfoldable pub inserted : Ticket → Ticket
inserted t = record t { resolution_notes = none; resolved_at = none; closed_at = none }

-- The foreign key on `statuses`: the status of a row exists.
unfoldable pub has_status : Uuid → List Status → Bool
has_status id statuses = is_some (find_row (λ st. st.id == id) statuses)

-- The other constraints of the tables are among the reasons for which a statement may be refused.
unfoldable pub create : Ticket → Exec TicketDb Done
unfolding inserted
create t = statement λ s.
    if has_status t.status_id s.statuses
    then (ok tt, record s { tickets = s.tickets ++ inserted t ∷ [] })
    else (err database, s)

unfoldable pub get_by_id : Uuid → Exec TicketDb Ticket
get_by_id id = query (λ s. found (find_row (has_id id) s.tickets))

unfoldable pub get_by_tracking_number : Text → Exec TicketDb Ticket
get_by_tracking_number tn =
    query (λ s. found (find_row (λ t. text_eq t.tracking_number tn) s.tickets))

-- The columns that `UpdateTicket` sets, at the time of the update; the others stay.
unfoldable pub ticket_columns : Ticket → Time → Ticket → Ticket
ticket_columns t at old = record old {
  subject = t.subject;
  description = t.description;
  type_id = t.type_id;
  item_id = t.item_id;
  priority = t.priority;
  status_id = t.status_id;
  assignee_user_id = t.assignee_user_id;
  assignee_group_id = t.assignee_group_id;
  resolution_notes = t.resolution_notes;
  resolved_at = t.resolved_at;
  closed_at = t.closed_at;
  updated_at = at;
}

unfoldable pub update : Ticket → Exec TicketDb Done
unfolding ticket_columns
update t = do
  at ← now
  statement λ s.
      if has_status t.status_id s.statuses
      then (ok tt, record s { tickets = update_rows (has_id t.id) (ticket_columns t at) s.tickets })
      else (err database, s)

unfoldable pub cti_columns : Uuid → Option Uuid → Option Uuid → Time → Ticket → Ticket
cti_columns category_id type_id item_id at old = record old {
  category_id = category_id;
  type_id = type_id;
  item_id = item_id;
  updated_at = at;
}

unfoldable pub update_cti : Uuid → Uuid → Option Uuid → Option Uuid → Exec TicketDb Done
unfolding cti_columns
update_cti id category_id type_id item_id = do
  at ← now
  write λ s. record s {
    tickets = update_rows (has_id id) (cti_columns category_id type_id item_id at) s.tickets;
  }

-- A sequence moves on, and is never set back.
unfoldable pub next_seq : Exec TicketDb ℕ
next_seq = statement (λ s. (ok (suc s.seq), record s { seq = suc s.seq }))

unfoldable pub create_reply : Reply → Exec TicketDb Done
create_reply r = write (λ s. record s { replies = s.replies ++ r ∷ [] })

-- The order by creation is the order of the table, where each row is added last.
unfoldable pub list_replies : Uuid → Exec TicketDb (List Reply)
list_replies ticket_id = query (λ s. ok (select_rows (λ r. r.ticket_id == ticket_id) s.replies))

unfoldable pub same_link : TicketLink → TicketLink → Bool
same_link a b =
    (a.source_ticket_id == b.source_ticket_id)
    && (a.target_ticket_id == b.target_ticket_id)
    && text_eq (link_text a.link_type) (link_text b.link_type)

-- The constraints of the table: no ticket linked to itself, no link twice.
unfoldable pub create_link : TicketLink → Exec TicketDb Done
unfolding same_link
create_link l = statement λ s.
    if not (l.source_ticket_id == l.target_ticket_id) && is_none (find_row (same_link l) s.links)
    then (ok tt, record s { links = s.links ++ l ∷ [] })
    else (err database, s)

unfoldable pub delete_link : TicketLink → Exec TicketDb Done
unfolding same_link
delete_link l = write (λ s. record s { links = delete_rows (same_link l) s.links })

unfoldable pub list_links : Uuid → Exec TicketDb (List TicketLink)
list_links id =
    query
      λ s. ok (select_rows (λ l. (l.source_ticket_id == id) || (l.target_ticket_id == id)) s.links)

unfoldable pub create_status_history_entry : StatusHistoryEntry → Exec TicketDb Done
create_status_history_entry e = statement λ s.
    if has_status e.to_status_id s.statuses
    then (ok tt, record s { history = s.history ++ e ∷ [] })
    else (err database, s)

unfoldable pub list_status_history : Uuid → Exec TicketDb (List StatusHistoryEntry)
list_status_history ticket_id =
    query (λ s. ok (select_rows (λ e. e.ticket_id == ticket_id) s.history))

unfoldable pub get_status_by_name : Text → Exec TicketDb Status
get_status_by_name name = query (λ s. found (find_row (λ st. text_eq st.name name) s.statuses))

-- In the order of the table: no caller relies on `ORDER BY sort_order, name` but the page.
unfoldable pub list_statuses : Exec TicketDb (List Status)
list_statuses = query (λ s. ok s.statuses)

-- `active` is TRUE by default, and names are unique.
unfoldable pub create_status : Status → Exec TicketDb Done
create_status st = statement λ s.
    if is_none (find_row (λ q. text_eq q.name st.name || (q.id == st.id)) s.statuses)
    then (
      ok tt,
      record s {
        statuses =
            s.statuses ++ record st { sort_order = to_int32 st.sort_order; active = true } ∷ [];
      },
    )
    else (err database, s)

-- The kind of a status is not among the columns that are set.
unfoldable pub status_columns : Status → Status → Status
status_columns st old = record old {
  name = st.name;
  sort_order = to_int32 st.sort_order;
  color = st.color;
  active = st.active;
}

unfoldable pub update_status : Status → Exec TicketDb Done
unfolding status_columns
update_status st = statement λ s.
    if is_none (find_row (λ q. text_eq q.name st.name && not (q.id == st.id)) s.statuses)
    then (
      ok tt,
      record s { statuses = update_rows (λ q. q.id == st.id) (status_columns st) s.statuses },
    )
    else (err database, s)

-- A status that a ticket has is kept by the foreign key.
unfoldable pub delete_status : Uuid → Exec TicketDb Done
delete_status id = statement λ s.
    if is_none (find_row (λ t. t.status_id == id) s.tickets)
    then (
      ok tt,
      record s { statuses = delete_rows (λ q. (q.id == id) && is_custom q.kind) s.statuses },
    )
    else (err database, s)

unfoldable pub count_by_status : Uuid → Exec TicketDb ℕ
count_by_status id = query (λ s. ok (count_rows (λ t. t.status_id == id) s.tickets))

-- Resolved before `before` and not closed. The order is left open.
unfoldable pub is_resolved_before : Time → Ticket → Bool
is_resolved_before before t = elim t.resolved_at [
  | none ↦ false
  | some at ↦ ltb at before && is_none t.closed_at
]

unfoldable pub create_audit_entry : AuditEntry → Exec TicketDb Done
create_audit_entry e = write (λ s. record s { audit = s.audit ++ e ∷ [] })
