-- ===== src/Ticket/Quiet.antt =====
-- Internal notes stay inside: `AddReply` of backend/internal/domain/ticket/service.go.
use open_help_desk.Base.{◌≡◌, Bool, true, false, Option, none, some, [], ◌∷◌, Uuid, Time}
use open_help_desk.Base.Table.{All, All-append}
use open_help_desk.Base.Text.{Text}
use open_help_desk.Base.Int.{ℤ}
use open_help_desk.Exec.{Env, World, now}
use open_help_desk.Exec.Keeps.{
  Keeps, Keeps-bind, Keeps-now, Keeps-checked, Keeps-write, Keeps-modify, keeps_rules, Keeps-zoom,
  Keeps-if, Keeps-attempt, Keeps-pure,
}
use open_help_desk.Ticket.{Ticket, Status, StatusHistoryEntry, Reply, Actor}
use open_help_desk.Ticket.Store
use open_help_desk.Ticket.Store.{TicketDb, Event, EventType, Payload, reply_mail, ticket_replied}
use open_help_desk.Ticket.Service
use open_help_desk.Ticket.Service.{
  Service, dispatch, first_response, status_found, get_status_by_id, reopen_on_reply,
}
use open_help_desk.Ticket.Operation.{Change, run_change}
use open_help_desk.Ticket.Stable.{IsStable, run_change-Keeps}

abbrev pub IsQuietNote : Reply → Type 0
IsQuietNote r = r.internal ≡ true → r.notify_customer ≡ false

abbrev pub HasQuietNotes : TicketDb → Type 0
HasQuietNotes s = All IsQuietNote s.replies

HasQuietNotes-IsStable : IsStable HasQuietNotes
unfolding Store.update Store.update_cti Store.create_status_history_entry Store.create_reply
    Store.create_audit_entry dispatch Store.create_link Store.delete_link Store.create_status
    Store.update_status Store.delete_status
HasQuietNotes-IsStable = record {
  update = λ t. Keeps-bind now _ Keeps-now (λ at. Keeps-checked _ _ _ _ (λ s h. h));
  update_cti = λ id c t i. Keeps-bind now _ Keeps-now (λ at. Keeps-write _ (λ s h. h));
  history = λ e. Keeps-checked _ _ _ _ (λ s h. h);
  reply = λ r quiet. Keeps-write _ (λ s h. All-append IsQuietNote s.replies (r ∷ []) h (quiet, tt));
  audit = λ e. Keeps-write _ (λ s h. h);
  event = λ e. Keeps-modify _ (λ s h. h);
  sla = λ sla s h. h;
  create_link = λ l. Keeps-checked _ _ _ _ (λ s h. h);
  delete_link = λ l. Keeps-write _ (λ s h. h);
  create_status = λ st. Keeps-checked _ _ _ _ (λ s h. h);
  update_status = λ st. Keeps-checked _ _ _ _ (λ s h. h);
  delete_status = λ id. Keeps-checked _ _ _ _ (λ s h. h);
}

-- No operation stores an internal note that notifies the customer.
pub run_change-HasQuietNotes :
    (svc : Service) (c : Change) (env : Env) (w : World TicketDb)
    → HasQuietNotes w.db
    → HasQuietNotes (run_change svc c env w).1.db
run_change-HasQuietNotes svc c env w h = (run_change-Keeps HasQuietNotes-IsStable svc c).at env w h

-- An event that carries no mail address.
abbrev pub IsMailless : Event → Type 0
IsMailless e = elim e.payload [ reply_mail to number subject body ↦ to ≡ [] | _ ↦ Unit ]

abbrev pub HasNoMail : TicketDb → Type 0
HasNoMail s = All IsMailless s.events

dispatch-HasNoMail : (e : Event) → IsMailless e → Keeps HasNoMail (dispatch e)
unfolding dispatch
dispatch-HasNoMail e h = Keeps-modify _ (λ s k. All-append IsMailless s.events (e ∷ []) k (h, tt))

update-HasNoMail : (t : Ticket) → Keeps HasNoMail (Store.update t)
unfolding Store.update
update-HasNoMail t = Keeps-bind now _ Keeps-now (λ at. Keeps-checked _ _ _ _ (λ s h. h))

history-HasNoMail : (e : StatusHistoryEntry) → Keeps HasNoMail (Store.create_status_history_entry e)
unfolding Store.create_status_history_entry
history-HasNoMail e = Keeps-checked _ _ _ _ (λ s h. h)

create_reply-HasNoMail : (r : Reply) → Keeps HasNoMail (Store.create_reply r)
unfolding Store.create_reply
create_reply-HasNoMail r = Keeps-write _ (λ s h. h)

get_by_id-HasNoMail : (id : Uuid) → Keeps HasNoMail (Store.get_by_id id)
unfolding Store.get_by_id
get_by_id-HasNoMail id = search keeps_rules

status_found-HasNoMail : (o : Option Status) → Keeps HasNoMail (status_found o)
status_found-HasNoMail none = search keeps_rules
status_found-HasNoMail (some st) = search keeps_rules

get_status_by_id-HasNoMail : (id : Uuid) → Keeps HasNoMail (get_status_by_id id)
unfolding get_status_by_id Store.list_statuses
get_status_by_id-HasNoMail id = search (keeps_rules, status_found-HasNoMail)

first_response-HasNoMail :
    (b : Bool) (id : Uuid) (at : Time) → Keeps HasNoMail (first_response b id at)
unfolding first_response
first_response-HasNoMail b id at =
    Keeps-if b _ _ (Keeps-attempt _ (Keeps-zoom _ _ _ (λ sla s h. h))) (Keeps-pure tt)

reopen_on_reply-HasNoMail :
    (t : Ticket) (target : Uuid) (actor : Actor) → Keeps HasNoMail (reopen_on_reply t target actor)
unfolding reopen_on_reply
reopen_on_reply-HasNoMail t target actor =
    search (keeps_rules, update-HasNoMail, history-HasNoMail, dispatch-HasNoMail) depth 40

add_reply-HasNoMail :
    (svc : Service) (id : Uuid) (body : Text) (mail : Bool) (to : Text) (actor : Actor) (days : ℤ)
    (target : Uuid)
    → Keeps HasNoMail (Service.add_reply svc id body true mail to actor days target)
unfolding Service.add_reply
add_reply-HasNoMail svc id body mail to actor days target =
    search
      (
        keeps_rules, get_by_id-HasNoMail, get_status_by_id-HasNoMail, create_reply-HasNoMail,
        reopen_on_reply-HasNoMail, first_response-HasNoMail, dispatch-HasNoMail,
      )
      depth 40

-- An internal reply hands over no event with a mail address, to whomever it is posted.
add_reply-IsMailless :
    (svc : Service) (id : Uuid) (body : Text) (mail : Bool) (to : Text) (actor : Actor) (days : ℤ)
    (target : Uuid) (env : Env) (w : World TicketDb)
    → All IsMailless w.db.events
    → All IsMailless
        (Service.add_reply svc id body true mail to actor days target env w).1.db.events
add_reply-IsMailless svc id body mail to actor days target env w h =
    (add_reply-HasNoMail svc id body mail to actor days target).at env w h
