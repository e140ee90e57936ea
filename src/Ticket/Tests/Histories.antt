-- ===== src/Ticket/Tests/Histories.antt =====
-- The theorems on replies, on what every operation keeps and on whole histories, applied to a small
-- help desk.
use open_help_desk.Base.{ℕ, ◌≡◌, refl, true, false, none, some, List, [], ◌∷◌, Time, arith}
use open_help_desk.Base.Table.{find_row}
use open_help_desk.Base.Text.{codes, text_eq}
use open_help_desk.Base.Int.{pos}
use open_help_desk.Exec.{World, ok, ◌>>=◌}
use open_help_desk.Ticket.{Reply, Attachment, medium, status_name_new, status_name_resolved}
use open_help_desk.Ticket.Rules.{can_user_update}
use open_help_desk.Ticket.Tracking.{generate_tracking_number, generate_tracking_number_injective}
use open_help_desk.Ticket.Store
use open_help_desk.Ticket.Store.{TicketDb, has_id}
use open_help_desk.Ticket.Service
use open_help_desk.Ticket.Service.{Service}
use open_help_desk.Ticket.Service.Create
use open_help_desk.Ticket.Service.Create.{CreateInput}
use open_help_desk.Ticket.Operation
use open_help_desk.Ticket.Operation.{run_change, run_all}
use open_help_desk.Ticket.Replying.{reply_reopens, reply_without_target, reply_by_any_user}
use open_help_desk.Ticket.Quiet.{HasQuietNotes, run_change-HasQuietNotes}
use open_help_desk.Ticket.Numbering.Unique.{run_all-tracking_unique}
use open_help_desk.Ticket.Tests.Desk.{
  status_of, open_ticket, resolved_ticket, desk, service, clock, ids, calm_env, agent, reporter,
  stranger,
}

-- The reporter comes back within the window of seven days.
reply_reopens_example :
    let s =
      (Service.add_reply service 2
        (codes "again")
        false
        true
        (codes "a@b")
        reporter
        (pos 7)
        11
        calm_env
        desk).1.db in
    (at : Time) × (find_row (has_id 2) s.tickets
      ≡ some (record resolved_ticket { status_id = 11; resolved_at = none; updated_at = at }))
unfolding find_row text_eq Store.has_status can_user_update generate_tracking_number
reply_reopens_example =
    reply_reopens clock ids desk service resolved_ticket (status_of 12 status_name_resolved) 2
      (codes "again") (codes "a@b") false true reporter (pos 7) 11 refl refl refl refl refl refl

-- The status to reopen to is set to nothing.
reply_without_target_example :
    (Service.add_reply service 2
      (codes "again")
      false
      true
      (codes "a@b")
      reporter
      (pos 7)
      0
      calm_env
      desk).1.db.tickets
    ≡ desk.db.tickets
unfolding find_row text_eq Store.has_status can_user_update generate_tracking_number
reply_without_target_example =
    (reply_without_target clock ids desk service resolved_ticket (status_of 12 status_name_resolved)
      2 (codes "again") (codes "a@b") false true reporter (pos 7) 0 refl refl refl refl refl refl).0

reply_by_any_user_example :
    let (r, v) =
      Service.add_reply service 1
        (codes "me too")
        false
        true
        (codes "a@b")
        stranger
        (pos 7)
        11
        calm_env
        desk in
    (reply : Reply) × (r ≡ ok reply)
    × (v.db.replies ≡ reply ∷ [])
    × (reply.author_id ≡ some 51)
    × (v.db.tickets ≡ desk.db.tickets)
unfolding find_row text_eq generate_tracking_number
reply_by_any_user_example =
    reply_by_any_user clock ids desk service open_ticket (status_of 11 status_name_new) 1
      (codes "me too") (codes "a@b") false true stranger (pos 7) 11 refl refl refl refl refl

run_change-HasQuietNotes_example :
    HasQuietNotes
      (run_change service
        (Operation.add_reply 1 (codes "loose plug") true true (codes "a@b") agent (pos 7) 11)
        calm_env
        desk).1.db
run_change-HasQuietNotes_example =
    run_change-HasQuietNotes service
      (Operation.add_reply 1 (codes "loose plug") true true (codes "a@b") agent (pos 7) 11) calm_env
      desk tt

generate_tracking_number_injective_example : ◌≡◌ {A = ℕ} 2025 2025 × ◌≡◌ {A = ℕ} 1_000_000 1_000_000
generate_tracking_number_injective_example =
    generate_tracking_number_injective 2025 1_000_000 2025 1_000_000 refl

abbrev request : CreateInput
request = record {
  subject = codes "No picture";
  description = [];
  category_id = 70;
  type_id = none;
  item_id = none;
  priority = medium;
  reporter_user_id = some 50;
  guest_email = none;
  guest_name = [];
  guest_phone = [];
}

-- A desk without tickets.
abbrev empty_desk : World TicketDb
empty_desk = record desk { db = record desk.db { tickets = []; seq = 0 } }

abbrev two_requests : List Operation.Operation
two_requests = Operation.open_ticket request ∷ Operation.open_ticket request ∷ []

run_all-tracking_unique_example : ◌≡◌ {A = ℕ} 1 1
unfolding run_all Operation.run Create.create Create.is_refused Store.next_seq Store.create
    Store.create_audit_entry Store.create_status_history_entry ◌>>=◌ find_row text_eq
    Store.has_status generate_tracking_number
run_all-tracking_unique_example =
    run_all-tracking_unique (λ at. 2025) service two_requests calm_env empty_desk (omega arith) 1 1
      _ _ refl refl refl

abbrev photo : Attachment
photo = record {
  id = 500;
  ticket_id = 1;
  filename = codes "photo.png";
  mime_type = codes "image/png";
  size_bytes = 2048;
  storage_path = codes "ab/cd";
  created_at = 7;
}
