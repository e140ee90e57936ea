-- ===== src/Ticket/Authority.antt =====
-- Exactly whom the rule functions of backend/internal/domain/ticket/ticket.go allow.
use open_help_desk.Base.{
  ◌+◌, ◌*◌, ◌≤◌, ◌≡◌, ◌↔◌, ◌⊎◌, inl, inr, true, false, ◌||◌, Option, none, some, Time, arith,
  Bool-cases,
}
use open_help_desk.Base.Text.{text_eq}
use open_help_desk.Base.Int.{ℤ, pos_part, neg_part}
use open_help_desk.Exec.{ok}
use open_help_desk.Ticket.{
  Ticket, Status, Role, is_user, is_admin, is_staff, status_name_closed, status_name_resolved,
}
use open_help_desk.Ticket.Rules.{can_transition_status, can_user_update, within_reopen_window, day}

-- A role may move a ticket to a status exactly when it is not `user`, and is `admin` if the status
-- is named Closed.
pub can_transition_status_iff :
    (st : Status) (role : Role)
    → (can_transition_status st role ≡ ok tt) ↔ (
        (is_user role ≡ false)
        × ((text_eq st.name status_name_closed ≡ false) ⊎ (is_admin role ≡ true)))
unfolding can_transition_status
can_transition_status_iff st role = (
  λ h. (
    ground arith,
    elim (Bool-cases (text_eq st.name status_name_closed)) [
      | inl closed ↦ inr (ground arith)
      | inr open_ ↦ inl open_
    ],
  ),
  λ h. ground arith,
)

-- There is a time of resolution, and the reopen window, which ends `days` days later, has not
-- passed.
abbrev pub IsInWindow : Option Time → ℤ → Time → Type 0
IsInWindow none days now = ⊥
IsInWindow (some at) days now = now + neg_part days * day ≤ at + pos_part days * day

within_reopen_window_iff :
    (resolved_at : Option Time) (days : ℤ) (now : Time)
    → (within_reopen_window resolved_at days now ≡ ok tt) ↔ IsInWindow resolved_at days now
unfolding within_reopen_window
within_reopen_window_iff none days now = (λ h. cc, λ h. absurd h)
within_reopen_window_iff (some at) days now = (λ h. ground arith, λ h. ground arith)

-- What the rule asks of somebody who is neither admin nor staff.
abbrev pub IsOpenFor : Ticket → Status → ℤ → Time → Type 0
IsOpenFor t st days now =
    (text_eq st.name status_name_closed ≡ false)
    × (text_eq st.name status_name_resolved ≡ true → IsInWindow t.resolved_at days now)

module _ (t : Ticket) (role : Role) (st : Status) (days : ℤ) (now : Time) where
  allowed_open :
      is_admin role || is_staff role ≡ false
      → can_user_update t role st days now ≡ ok tt
      → IsOpenFor t st days now
  unfolding can_user_update
  allowed_open plain h =
      let window = within_reopen_window_iff t.resolved_at days now in
      (ground arith, λ resolved. window.0 (ground arith))

  open_allowed : IsOpenFor t st days now → can_user_update t role st days now ≡ ok tt
  unfolding can_user_update
  open_allowed (open_, window) = elim (Bool-cases (text_eq st.name status_name_resolved)) [
    | inl resolved ↦
        let inside = (within_reopen_window_iff t.resolved_at days now).1 (window resolved) in
        ground arith
    | inr other ↦ ground arith
  ]

  staff_allowed : is_admin role || is_staff role ≡ true → can_user_update t role st days now ≡ ok tt
  unfolding can_user_update
  staff_allowed h = ground arith

-- Admins and staff may always change a ticket. Anybody else may exactly when its status is not
-- named Closed and, if it is named Resolved, the ticket has a time of resolution and the reopen
-- window has not passed. Whose ticket it is plays no part.
pub can_user_update_iff :
    (t : Ticket) (role : Role) (st : Status) (days : ℤ) (now : Time)
    → (can_user_update t role st days now ≡ ok tt)
      ↔ ((is_admin role || is_staff role ≡ true) ⊎ IsOpenFor t st days now)
can_user_update_iff t role st days now = (
  λ h. elim (Bool-cases (is_admin role || is_staff role)) [
    | inl staff ↦ inl staff
    | inr plain ↦ inr (allowed_open t role st days now plain h)
  ],
  elim [
    | inl staff ↦ staff_allowed t role st days now staff
    | inr open_ ↦ open_allowed t role st days now open_
  ],
)
