-- ===== src/Sla/Tests.antt =====
-- A ticket and its policy, on which the theorems about service levels are applied.
use open_help_desk.Base.{
  ℕ, ◌+◌, ◌*◌, ◌^◌, ◌<◌, ◌≡◌, ◌↔◌, refl, true, false, Option, none, some, [], ◌∷◌, ◌++◌, Uuid, Time,
  arith,
}
use open_help_desk.Base.Text.{codes}
use open_help_desk.Base.Int.{pos, negsuc, leb_ℤ}
use open_help_desk.Exec.{World, calm, ok}
use open_help_desk.Ticket.{Ticket, medium}
use open_help_desk.Sla.{
  Policy, SlaRecord, minute, past_target, is_response_breached, is_resolution_breached,
}
use open_help_desk.Sla.Store.{SlaDb}
use open_help_desk.Sla.Service.{new_record, create_policy}
use open_help_desk.Sla.Breach.{breached_iff, past_target_overflow}
use open_help_desk.Sla.Policies.{create_policy-wraps}

abbrev clock : ℕ → Time
clock n = n

abbrev ids : ℕ → Uuid
ids n = n

abbrev policy_of : Uuid → Option Uuid → ℕ → ℕ → Policy
policy_of id category response resolution = record {
  id = id;
  name = codes "Standard";
  priority = medium;
  category_id = category;
  response_target_min = pos response;
  resolution_target_min = pos resolution;
}

abbrev standard : Policy
standard = policy_of 1 none 60 480

abbrev network : Policy
network = policy_of 2 (some 70) 30 240

abbrev ticket : Ticket
ticket = record {
  id = 9;
  tracking_number = codes "OHD-2025-000009";
  subject = codes "No network";
  description = [];
  category_id = 70;
  type_id = none;
  item_id = none;
  priority = medium;
  status_id = 11;
  assignee_user_id = none;
  assignee_group_id = none;
  reporter_user_id = some 50;
  guest_email = none;
  guest_name = [];
  guest_phone = [];
  resolution_notes = none;
  resolved_at = none;
  closed_at = none;
  created_at = 5;
  updated_at = 5;
}

abbrev open_record : SlaRecord
open_record = new_record ticket network

abbrev no_records : World SlaDb
no_records = record { db = record { policies = standard ∷ network ∷ []; records = [] }; calls = 0 }

-- A policy that was stored with a target of less than nothing.
abbrev odd : Policy
odd = record standard { resolution_target_min = negsuc 0 }

breached_iff_example :
    ((is_response_breached open_record odd 5 100 ≡ true)
      ↔ ((open_record.first_response_at ≡ none) × (5 + 60 * minute < 100)))
    × ((is_resolution_breached open_record odd 5 100 ≡ true)
        ↔ ((open_record.resolved_at ≡ none) × (5 < 100 + minute)))
breached_iff_example = breached_iff open_record odd 5 100 (omega arith) (omega arith)

-- Some 292 years of minutes.
past_target_overflow_example : past_target (pos 200_000_000) 5 5 ≡ true
past_target_overflow_example =
    past_target_overflow 200_000_000 5 5 (omega arith) (omega arith) (omega arith)

-- The response target is too large, the other one is not.
create_policy-wraps_example :
    let p = policy_of 3 none (2 ^ 31) 480 in
    let (r, v) = create_policy p (calm clock ids) no_records in
    (p' : Policy) × (row : Policy) × (r ≡ ok p')
    × (v.db.policies ≡ no_records.db.policies ++ row ∷ [])
    × (row.id ≡ p'.id)
    × (leb_ℤ row.response_target_min (pos 0) ≡ true)
    × (leb_ℤ row.resolution_target_min (pos 0) ≡ false)
create_policy-wraps_example =
    create_policy-wraps clock ids no_records (policy_of 3 none (2 ^ 31) 480) (2 ^ 31) 480 refl refl
      refl (omega arith) (omega arith) (omega arith) (omega arith)
