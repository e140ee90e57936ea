-- ===== src/Ticket/Rules.antt =====
-- The rule functions of backend/internal/domain/ticket/ticket.go: who may change a ticket.
use open_help_desk.Base.{
  ◌+◌, ◌*◌, ◌^◌, Bool, ◌&&◌, ◌||◌, not, Option, none, some, Time, if◌then◌else◌, ltb, ℕ,
}
use open_help_desk.Base.Text.{text_eq}
use open_help_desk.Base.Int.{ℤ, pos_part, neg_part}
use open_help_desk.Exec.{Done, Result, ok, err, forbidden, ticket_closed}
use open_help_desk.Ticket.{
  Role, Status, Ticket, status_name_closed, status_name_resolved, is_admin, is_staff, is_user,
}

-- The nanoseconds of one day.
abbrev pub day : ℕ
day = 86400 * 10 ^ 9

-- `now.After(at.AddDate(0, 0, days))`, in a location whose days have 24 hours.
abbrev pub after_days : Time → Time → ℤ → Bool
after_days now at days = ltb (at + pos_part days * day) (now + neg_part days * day)

-- The test of a Resolved ticket; `now` is the clock's reading.
unfoldable pub within_reopen_window : Option Time → ℤ → Time → Result Done
within_reopen_window none days now = err forbidden
within_reopen_window (some resolved_at) days now =
    if after_days now resolved_at days then err forbidden else ok tt

unfoldable pub can_user_update : Ticket → Role → Status → ℤ → Time → Result Done
unfolding within_reopen_window
can_user_update t role status reopen_window_days now =
    if is_admin role || is_staff role
    then ok tt
    else if text_eq status.name status_name_closed
    then err ticket_closed
    else if text_eq status.name status_name_resolved
    then within_reopen_window t.resolved_at reopen_window_days now
    else ok tt

unfoldable pub can_transition_status : Status → Role → Result Done
can_transition_status to role =
    if is_user role
    then err forbidden
    else if text_eq to.name status_name_closed && not (is_admin role)
    then err forbidden
    else ok tt
