-- ===== src/Ticket/Stable.antt =====
-- An invariant of the tables that each writing statement keeps is kept by every operation: the
-- operations differ in what they write and in what they check first.
use open_help_desk.Base.{
  ◌≡◌, Bool, true, false, arith, if◌then◌else◌, Option, none, some, Uuid, Time,
}
use open_help_desk.Base.Text.{Text}
use open_help_desk.Base.Int.{ℤ}
use open_help_desk.Exec.Keeps.{Keeps, keeps_rules, Keeps-zoom, Keeps-if, Keeps-attempt, Keeps-pure}
use open_help_desk.Ticket.{Ticket, Status, Actor, StatusHistoryEntry, Reply, TicketLink}
use open_help_desk.Ticket.Store
use open_help_desk.Ticket.Store.{TicketDb, AuditEntry, Event}
use open_help_desk.Ticket.Service.{
  Service, status_found, get_status_by_id, dispatch, reopen_on_reply, first_response,
}
use open_help_desk.Ticket.Service
use open_help_desk.Ticket.Service.Create.{CreateInput, announce, attach_sla}
use open_help_desk.Ticket.Operation.{Change, run_change}
use open_help_desk.Ticket.Operation
use open_help_desk.Sla.Store.{SlaDb}

pub record IsStable (P : TicketDb → Type 0) : Type 0 where
  pub update : (t : Ticket) → Keeps P (Store.update t)
  pub update_cti : (id c : Uuid) (t i : Option Uuid) → Keeps P (Store.update_cti id c t i)
  pub history : (e : StatusHistoryEntry) → Keeps P (Store.create_status_history_entry e)
  pub reply :
      (r : Reply) → (r.internal ≡ true → r.notify_customer ≡ false) → Keeps P (Store.create_reply r)
  pub audit : (e : AuditEntry) → Keeps P (Store.create_audit_entry e)
  pub event : (e : Event) → Keeps P (dispatch e)
  pub sla : (sla : SlaDb) (s : TicketDb) → P s → P (record s { sla = sla })
  pub create_link : (l : TicketLink) → Keeps P (Store.create_link l)
  pub delete_link : (l : TicketLink) → Keeps P (Store.delete_link l)
  pub create_status : (st : Status) → Keeps P (Store.create_status st)
  pub update_status : (st : Status) → Keeps P (Store.update_status st)
  pub delete_status : (id : Uuid) → Keeps P (Store.delete_status id)

-- `notifyCustomer = false` under `if internal`
silenced : (internal mail : Bool) → internal ≡ true → (if internal then false else mail) ≡ false
silenced internal mail h = ground arith

module _ {P : TicketDb → Type 0} (stable : IsStable P) where
  get_by_id-Keeps : (id : Uuid) → Keeps P (Store.get_by_id id)
  unfolding Store.get_by_id
  get_by_id-Keeps id = search keeps_rules

  status_found-Keeps : (o : Option Status) → Keeps P (status_found o)
  status_found-Keeps none = search keeps_rules
  status_found-Keeps (some st) = search keeps_rules

  get_status_by_id-Keeps : (id : Uuid) → Keeps P (get_status_by_id id)
  unfolding get_status_by_id Store.list_statuses
  get_status_by_id-Keeps id = search (keeps_rules, status_found-Keeps)

  first_response-Keeps : (b : Bool) (id : Uuid) (at : Time) → Keeps P (first_response b id at)
  unfolding first_response
  first_response-Keeps b id at =
      Keeps-if b _ _ (Keeps-attempt _ (Keeps-zoom _ _ _ stable.sla)) (Keeps-pure tt)

  reopen_on_reply-Keeps :
      (t : Ticket) (target : Uuid) (actor : Actor) → Keeps P (reopen_on_reply t target actor)
  unfolding reopen_on_reply
  reopen_on_reply-Keeps t target actor =
      search (keeps_rules, stable.update, stable.history, stable.event) depth 40

  add_reply-Keeps :
      (svc : Service) (id : Uuid) (body : Text) (internal mail : Bool) (to : Text) (actor : Actor)
      (days : ℤ) (target : Uuid)
      → Keeps P (Service.add_reply svc id body internal mail to actor days target)
  unfolding Service.add_reply
  add_reply-Keeps svc id body internal mail to actor days target =
      search
        (
          keeps_rules, get_by_id-Keeps, get_status_by_id-Keeps, stable.reply, silenced,
          reopen_on_reply-Keeps, first_response-Keeps, stable.event,
        )
        depth 40

  attach_sla-Keeps : (b : Bool) (t : Ticket) → Keeps P (attach_sla b t)
  unfolding attach_sla
  attach_sla-Keeps b t =
      Keeps-if b _ _ (Keeps-attempt _ (Keeps-zoom _ _ _ stable.sla)) (Keeps-pure tt)

  pub announce-Keeps :
      (svc : Service) (input : CreateInput) (t : Ticket) → Keeps P (announce svc input t)
  unfolding announce
  announce-Keeps svc input t =
      search (keeps_rules, stable.history, stable.audit, stable.event, attach_sla-Keeps) depth 40

  pub run_change-Keeps : (svc : Service) (c : Change) → Keeps P (run_change svc c)
  unfolding run_change
  run_change-Keeps svc (Operation.update_status id st actor) =
      unfold Service.update_status in
      search
        (
          keeps_rules, get_by_id-Keeps, get_status_by_id-Keeps, stable.update, stable.history,
          stable.audit, stable.event,
        )
        depth 40
  run_change-Keeps svc (Operation.assign id u g actor) =
      unfold Service.assign in
      search (keeps_rules, get_by_id-Keeps, stable.update, stable.audit, stable.event) depth 40
  run_change-Keeps svc (Operation.add_reply id body internal mail to actor days target) =
      search (keeps_rules, add_reply-Keeps)
  run_change-Keeps svc (Operation.resolve id notes actor) =
      unfold Service.resolve in
      search
        (keeps_rules, get_by_id-Keeps, stable.update, stable.history, stable.audit, stable.event)
        depth 40
  run_change-Keeps svc (Operation.close id) =
      unfold Service.close in
      search (keeps_rules, get_by_id-Keeps, stable.update, stable.history, stable.event) depth 40
  run_change-Keeps svc (Operation.reopen id target actor) =
      unfold Service.reopen in
      search
        (keeps_rules, get_by_id-Keeps, stable.update, stable.history, stable.audit, stable.event)
        depth 40
  run_change-Keeps svc (Operation.add_link a b lt actor) =
      unfold Service.add_link in search (keeps_rules, stable.create_link, stable.event) depth 40
  run_change-Keeps svc (Operation.remove_link a b lt) =
      unfold Service.remove_link in search (stable.delete_link)
  run_change-Keeps svc (Operation.update_cti id c t i) =
      unfold Service.update_cti in search (keeps_rules, stable.update_cti, get_by_id-Keeps) depth 40
  run_change-Keeps svc (Operation.add_status st) =
      unfold Service.add_status in search (stable.create_status)
  run_change-Keeps svc (Operation.save_status st) =
      unfold Service.save_status in search (stable.update_status)
  run_change-Keeps svc (Operation.remove_status id) =
      unfold Service.remove_status Store.count_by_status in
      search (keeps_rules, get_status_by_id-Keeps, stable.delete_status) depth 40
