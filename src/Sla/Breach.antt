-- ===== src/Sla/Breach.antt =====
-- When a target is breached: backend/internal/domain/sla/sla.go.
use open_help_desk.Base.{
  ℕ, suc, ◌+◌, ◌*◌, ◌^◌, ◌≤◌, ◌<◌, ◌≡◌, ◌↔◌, ◌⊎◌, inl, inr, Option-cases, true, false, none, Time,
  arith,
}
use open_help_desk.Base.Int.{ℤ, pos, negsuc, to_int64, to_int64_fits, to_int64_neg}
use open_help_desk.Sla.{
  SlaRecord, Policy, minute, past_target, is_response_breached, is_resolution_breached,
}
use open_help_desk.Sla.Service.{stamp_breaches, has_new_breach}

-- The nanoseconds of the target fit an int64.
abbrev pub FitsInt64 : ℤ → Type 0
FitsInt64 (pos m) = m * minute < 2 ^ 63
FitsInt64 (negsuc m) = suc m * minute ≤ 2 ^ 63

-- The clock stands after the time of creation and so many minutes, or after so many minutes before
-- the time of creation.
abbrev pub IsPast : ℤ → Time → Time → Type 0
IsPast (pos m) created now = created + m * minute < now
IsPast (negsuc m) created now = created < now + suc m * minute

past_target_iff :
    (target : ℤ) (created now : Time)
    → FitsInt64 target
    → (past_target target created now ≡ true) ↔ IsPast target created now
unfolding past_target to_int64
past_target_iff (pos m) created now fits = rw (to_int64_fits (m * minute) fits) (ground arith)
past_target_iff (negsuc m) created now fits =
    rw (to_int64_neg (suc m * minute) (omega arith) fits) (ground arith)

-- If the nanoseconds of both targets of a policy fit an int64, positive or not, a record counts as
-- breached in its response exactly when no response has come and the clock stands after the time of
-- creation and the response target; and likewise for the resolution and the resolution target.
pub breached_iff :
    (r : SlaRecord) (p : Policy) (created now : Time)
    → FitsInt64 p.response_target_min
    → FitsInt64 p.resolution_target_min
    → ((is_response_breached r p created now ≡ true)
        ↔ ((r.first_response_at ≡ none) × IsPast p.response_target_min created now))
      × ((is_resolution_breached r p created now ≡ true)
          ↔ ((r.resolved_at ≡ none) × IsPast p.resolution_target_min created now))
unfolding is_response_breached is_resolution_breached
breached_iff r p created now response resolution =
    let (late, is_late) = past_target_iff p.response_target_min created now response in
    let (slow, is_slow) = past_target_iff p.resolution_target_min created now resolution in
    (
      elim (Option-cases r.first_response_at) [
        | inl waiting ↦
            (λ h. (waiting, late (ground arith)), λ h. let hit = is_late h.1 in ground arith)
        | inr (at, e) ↦ (λ h. absurd (ground arith), λ h. absurd (ground arith))
      ],
      elim (Option-cases r.resolved_at) [
        | inl waiting ↦
            (λ h. (waiting, slow (ground arith)), λ h. let hit = is_slow h.1 in ground arith)
        | inr (at, e) ↦ (λ h. absurd (ground arith), λ h. absurd (ground arith))
      ],
    )

-- A target of minutes that are too many for an int64 of nanoseconds, but fewer than twice as many,
-- counts as breached from the moment of creation on.
pub past_target_overflow :
    (m : ℕ) (created now : Time)
    → 2 ^ 63 ≤ m * minute
    → m * minute < 2 ^ 64
    → created ≤ now
    → past_target (pos m) created now ≡ true
unfolding past_target to_int64
past_target_overflow m created now big small later = ground arith

-- A record whose response has come gets no stamp for the response, and one that is resolved none
-- for the resolution; and a stamp stays as it is whatever is evaluated later, by whichever policy.
stamp_breaches_once :
    (r : SlaRecord) (p q : Policy) (created now later : Time)
    → let s = stamp_breaches r p created now in
      let u = stamp_breaches s q created later in
      ((s.response_breached_at ≡ none) ⊎ (u.response_breached_at ≡ s.response_breached_at))
      × ((s.resolution_breached_at ≡ none) ⊎ (u.resolution_breached_at ≡ s.resolution_breached_at))
      × ((r.first_response_at ≡ none) ⊎ (s.response_breached_at ≡ r.response_breached_at))
      × ((r.resolved_at ≡ none) ⊎ (s.resolution_breached_at ≡ r.resolution_breached_at))
unfolding stamp_breaches is_response_breached is_resolution_breached
stamp_breaches_once r p q created now later = (
  elim (Option-cases (stamp_breaches r p created now).response_breached_at) [
    | inl open_ ↦ inl open_
    | inr (at, e) ↦ inr (ground arith)
  ],
  elim (Option-cases (stamp_breaches r p created now).resolution_breached_at) [
    | inl open_ ↦ inl open_
    | inr (at, e) ↦ inr (ground arith)
  ],
  elim (Option-cases r.first_response_at) [
    | inl open_ ↦ inl open_
    | inr (at, e) ↦ inr (ground arith)
  ],
  elim (Option-cases r.resolved_at) [ inl open_ ↦ inl open_ | inr (at, e) ↦ inr (ground arith) ],
)

-- Evaluated again at the same moment, a record has no new breach.
stamp_breaches_idempotent :
    (r : SlaRecord) (p : Policy) (created now : Time)
    → has_new_breach (stamp_breaches r p created now) p created now ≡ false
unfolding stamp_breaches is_response_breached is_resolution_breached
stamp_breaches_idempotent r p created now = ground arith
