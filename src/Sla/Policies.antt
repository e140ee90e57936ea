-- ===== src/Sla/Policies.antt =====
-- Policies in the table: `CreatePolicy` of backend/internal/domain/sla/service.go.
use open_help_desk.Base.{
  ℕ, ◌^◌, ◌<◌, ◌≡◌, refl, inl, inr, leb, Uuid, Time, Bool-cases, false, [], ◌∷◌, ◌++◌, arith,
}
use open_help_desk.Base.Text.{is_empty}
use open_help_desk.Base.Int.{pos, leb_ℤ, to_int32, to_int32_fits}
use open_help_desk.Exec.{Env, World, calm, ok, ◌>>=◌}
use open_help_desk.Sla.{Policy}
use open_help_desk.Sla.Store
use open_help_desk.Sla.Store.{SlaDb, policy_row}
use open_help_desk.Sla.Service.{create_policy}

abbrev pub IsValidPolicy : Policy → Type 0
IsValidPolicy p =
    (is_empty p.name ≡ false)
    × (leb_ℤ p.response_target_min (pos 0) ≡ false)
    × (leb_ℤ p.resolution_target_min (pos 0) ≡ false)

module _ (env : Env) (w : World SlaDb) (p : Policy) where
  -- A policy that is created has a name and positive targets, and is stored last, its targets cut
  -- to 32 bits.
  create_policy_ok :
      (p' : Policy)
      → (create_policy p env w).0 ≡ ok p'
      → IsValidPolicy p'
        × ((create_policy p env w).1.db.policies ≡ w.db.policies ++ policy_row p' ∷ [])
  unfolding create_policy Store.create_policy ◌>>=◌
  create_policy_ok p' h = ((ground arith, ground arith, ground arith), ground arith)

-- Targets below 2 ^ 31 are stored as they are.
policy_row_fits :
    (p : Policy) (m n : ℕ)
    → p.response_target_min ≡ pos m
    → p.resolution_target_min ≡ pos n
    → m < 2 ^ 31
    → n < 2 ^ 31
    → policy_row p ≡ p
unfolding policy_row
policy_row_fits p m n e f hm hn = ground (arith, to_int32_fits m hm, to_int32_fits n hn)

int32-wraps : (m : ℕ) → 0 < m → m < 2 ^ 32 → leb_ℤ (to_int32 (pos m)) (pos 0) ≡ leb (2 ^ 31) m
unfolding to_int32
int32-wraps m lo hi = elim (Bool-cases (leb (2 ^ 31) m)) [
  | inl big ↦ ground arith
  | inr small ↦ ground arith
]

-- If the database refuses nothing, a policy with a name and with positive targets below 2 ^ 32 is
-- created and stored last; and of the stored targets, those that are not positive are exactly those
-- that were 2 ^ 31 or more.
pub create_policy-wraps :
    (now_at : ℕ → Time) (uuid_at : ℕ → Uuid) (w : World SlaDb) (p : Policy) (m n : ℕ)
    → is_empty p.name ≡ false
    → p.response_target_min ≡ pos m
    → p.resolution_target_min ≡ pos n
    → 0 < m
    → m < 2 ^ 32
    → 0 < n
    → n < 2 ^ 32
    → let (r, v) = create_policy p (calm now_at uuid_at) w in
      (p' : Policy) × (row : Policy) × (r ≡ ok p')
      × (v.db.policies ≡ w.db.policies ++ row ∷ [])
      × (row.id ≡ p'.id)
      × (leb_ℤ row.response_target_min (pos 0) ≡ leb (2 ^ 31) m)
      × (leb_ℤ row.resolution_target_min (pos 0) ≡ leb (2 ^ 31) n)
unfolding create_policy Store.create_policy policy_row ◌>>=◌
create_policy-wraps now_at uuid_at w p m n named response resolution m_lo m_hi n_lo n_hi =
    let p' : Policy = record p { id = uuid_at w.calls } in
    (
      p',
      policy_row p',
      ground arith,
      ground arith,
      refl,
      rw response (int32-wraps m m_lo m_hi),
      rw resolution (int32-wraps n n_lo n_hi),
    )
