-- ===== src/Sla/Service.antt =====
-- The SLA service: backend/internal/domain/sla/service.go.
use open_help_desk.Base.{Bool, ◌&&◌, ◌||◌, Option, none, some, Uuid, Time, is_none, if◌then◌else◌}
use open_help_desk.Base.Text.{is_empty}
use open_help_desk.Base.Int.{pos, leb_ℤ}
use open_help_desk.Exec.{
  Done, Exec, pure, raise_if, try, fresh, name_required, target_not_positive, ◌>>=◌, ◌>>◌,
}
use open_help_desk.Ticket.{Ticket}
use open_help_desk.Sla.{Policy, SlaRecord, is_response_breached, is_resolution_breached}
use open_help_desk.Sla.Store
use open_help_desk.Sla.Store.{SlaDb, find_policy, create_record, get_record, update_record}

abbrev pub new_record : Ticket → Policy → SlaRecord
new_record t p = record {
  ticket_id = t.id;
  policy_id = p.id;
  first_response_at = none;
  resolved_at = none;
  response_breached_at = none;
  resolution_breached_at = none;
}

abbrev pub attach : Ticket → Option Policy → Exec SlaDb Done
attach t none = pure tt
attach t (some p) = create_record (new_record t p)

unfoldable pub attach_policy : Ticket → Exec SlaDb Done
unfolding find_policy create_record
attach_policy t = do policy ← find_policy t.priority t.category_id; attach t policy

-- Marks the first response once; a ticket with no record is left alone.
abbrev pub mark_response : Time → Option SlaRecord → Exec SlaDb Done
mark_response at none = pure tt
mark_response at (some r) = elim r.first_response_at [
  | some earlier ↦ pure tt
  | none ↦ update_record (record r { first_response_at = some at })
]

unfoldable pub record_first_response : Uuid → Time → Exec SlaDb Done
unfolding get_record update_record
record_first_response ticket_id at = do found ← try (get_record ticket_id); mark_response at found

-- The record with the breaches of `now` stamped where they are new.
unfoldable pub stamp_breaches : SlaRecord → Policy → Time → Time → SlaRecord
stamp_breaches r p created now = record r {
  response_breached_at =
      if is_none r.response_breached_at && is_response_breached r p created now
      then some now
      else r.response_breached_at;
  resolution_breached_at =
      if is_none r.resolution_breached_at && is_resolution_breached r p created now
      then some now
      else r.resolution_breached_at;
}

abbrev pub has_new_breach : SlaRecord → Policy → Time → Time → Bool
has_new_breach r p created now =
    (is_none r.response_breached_at && is_response_breached r p created now)
    || (is_none r.resolution_breached_at && is_resolution_breached r p created now)

abbrev pub evaluate_record : Ticket → Time → Option SlaRecord → Exec SlaDb Done
evaluate_record t now none = pure tt
evaluate_record t now (some r) = do
  p ← Store.get_policy r.policy_id
  if has_new_breach r p t.created_at now
      then update_record (stamp_breaches r p t.created_at now)
      else pure tt

unfoldable pub evaluate_breaches : Ticket → Time → Exec SlaDb Done
unfolding get_record update_record stamp_breaches
evaluate_breaches t now = do found ← try (get_record t.id); evaluate_record t now found

-- The checks that `CreatePolicy` and `UpdatePolicy` share.
abbrev pub check_policy : Policy → Exec SlaDb Done
check_policy p = do
  raise_if (is_empty p.name) name_required
  raise_if (leb_ℤ p.response_target_min (pos 0)) target_not_positive
  raise_if (leb_ℤ p.resolution_target_min (pos 0)) target_not_positive

unfoldable pub create_policy : Policy → Exec SlaDb Policy
create_policy p = do
  check_policy p
  id ← fresh
  Store.create_policy (record p { id = id })
  pure (record p { id = id })

unfoldable pub update_policy : Policy → Exec SlaDb Done
update_policy p = do check_policy p; Store.update_policy p
