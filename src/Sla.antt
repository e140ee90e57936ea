-- ===== src/Sla.antt =====
-- Service level targets: backend/internal/domain/sla/sla.go.
pub mod Store
mod Tests
pub mod Service
pub mod Breach
pub mod Policies
pub mod Records
use open_help_desk.Base.{ℕ, ◌+◌, ◌*◌, ◌^◌, Bool, false, Option, none, some, Uuid, Time, ltb}
use open_help_desk.Base.Text.{Text}
use open_help_desk.Base.Int.{ℤ, pos_part, neg_part, scale, to_int64}
use open_help_desk.Ticket.{Priority}

pub record Policy : Type 0 where
  pub id : Uuid
  pub name : Text
  pub priority : Priority
  pub category_id : Option Uuid
  pub response_target_min : ℤ
  pub resolution_target_min : ℤ

pub record SlaRecord : Type 0 where
  pub ticket_id : Uuid
  pub policy_id : Uuid
  pub first_response_at : Option Time
  pub resolved_at : Option Time
  pub response_breached_at : Option Time
  pub resolution_breached_at : Option Time

-- `time.Minute`, in nanoseconds
abbrev pub minute : ℕ
minute = 60 * 10 ^ 9

-- `now.After(created.Add(time.Duration(target) * time.Minute))`: the product is an int64.
unfoldable pub past_target : ℤ → Time → Time → Bool
past_target target created now =
    let duration = to_int64 (scale minute target) in
    ltb (created + pos_part duration) (now + neg_part duration)

unfoldable pub is_response_breached : SlaRecord → Policy → Time → Time → Bool
is_response_breached r p ticket_created_at now = elim r.first_response_at [
  | some at ↦ false
  | none ↦ past_target p.response_target_min ticket_created_at now
]

unfoldable pub is_resolution_breached : SlaRecord → Policy → Time → Time → Bool
is_resolution_breached r p ticket_created_at now = elim r.resolved_at [
  | some at ↦ false
  | none ↦ past_target p.resolution_target_min ticket_created_at now
]
