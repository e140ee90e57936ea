-- ===== src/Ticket/Tests/Changes.antt =====
-- The theorems on single operations on tickets, applied to a small help desk.
use open_help_desk.Base.{◌≡◌, refl, some, inr, arith}
use open_help_desk.Base.Table.{find_row}
use open_help_desk.Base.Text.{codes, text_eq}
use open_help_desk.Base.Int.{pos}
use open_help_desk.Exec.{ok, database, ◌>>=◌}
use open_help_desk.Ticket.{user, status_name_resolved}
use open_help_desk.Ticket.Rules.{can_transition_status, can_user_update}
use open_help_desk.Ticket.Tracking.{generate_tracking_number}
use open_help_desk.Ticket.Store
use open_help_desk.Ticket.Store.{TicketDb, has_id}
use open_help_desk.Ticket.Service
use open_help_desk.Ticket.Service.{Service}
use open_help_desk.Ticket.Operation
use open_help_desk.Ticket.Operation.{run_change, run, run_all}
use open_help_desk.Ticket.Outcome.{IsStored, resolve_ok, update_status_ok}
use open_help_desk.Ticket.Atomic.{run-err}
use open_help_desk.Ticket.Authority.{can_user_update_iff}
use open_help_desk.Ticket.Tests.Desk.{
  status_of, open_ticket, resolved_ticket, desk, service, calm_env, agent,
}

resolve_ok_example :
    IsStored 1
      (record open_ticket {
        status_id = 12;
        resolution_notes = some (codes "plugged in");
        resolved_at = some 101;
        updated_at = 101;
      })
      (Service.resolve service 1 (codes "plugged in") agent calm_env desk).1.db
unfolding Service.resolve Store.get_by_id Store.update Store.create_status_history_entry
    Store.create_audit_entry can_transition_status ◌>>=◌ generate_tracking_number find_row text_eq
    Store.has_status
resolve_ok_example = (resolve_ok calm_env desk _ service 1 (codes "plugged in") agent refl).0

update_status_ok_example :
    IsStored 1
      (record open_ticket { status_id = 12; updated_at = 102 })
      (Service.update_status 1 12 agent calm_env desk).1.db
unfolding Service.update_status Store.get_by_id Store.list_statuses Store.update
    can_transition_status Store.create_status_history_entry Store.create_audit_entry ◌>>=◌
    generate_tracking_number find_row text_eq Store.has_status
update_status_ok_example = (update_status_ok calm_env desk _ 1 12 agent refl).0

-- A ticket cannot be reopened to a status that does not exist.
run-err_example :
    (run (λ at. 2025) service (Operation.change (Operation.reopen 3 99 agent)) calm_env desk).1.db
    ≡ desk.db
unfolding run run_change Service.reopen Store.get_by_id Store.update
    Store.create_status_history_entry Store.create_audit_entry ◌>>=◌ generate_tracking_number
    find_row text_eq Store.has_status
run-err_example =
    run-err (λ at. 2025) service calm_env desk database
      (Operation.change (Operation.reopen 3 99 agent)) refl

can_user_update_iff_example :
    can_user_update resolved_ticket user (status_of 12 status_name_resolved) (pos 7) 100 ≡ ok tt
unfolding text_eq can_user_update
can_user_update_iff_example =
    (can_user_update_iff resolved_ticket user (status_of 12 status_name_resolved) (pos 7) 100).1
      (inr (refl, λ resolved. omega arith))
