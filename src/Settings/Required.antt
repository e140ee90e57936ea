-- ===== src/Settings/Required.antt =====
-- Who has to have a second factor: `MFARequiredFor` of backend/internal/domain/admin/service.go.
use open_help_desk.Base.{
  ℕ, suc, ◌≡◌, refl, sym, ◌∙◌, ◌↔◌, inl, inr, Bool, true, false, Option, none, some, List, [], ◌∷◌,
  Uuid, Time, Bool-cases, arith,
}
use open_help_desk.Base.Order.{IsRow}
use open_help_desk.Base.Text.{Text, text_eq, text_eq_iff}
use open_help_desk.Exec.{World, calm, Result, ok, err, pure, ◌>>=◌}
use open_help_desk.Settings.{
  Json, JsonList, null, boolean, integer, decimal, text, array, object, to_bool, to_texts,
  items_to_texts,
}
use open_help_desk.Settings.Key
use open_help_desk.Settings.Store.{SettingsDb, lookup}
use open_help_desk.Settings.Reading.{decoded, is_on-calm, texts_at-calm}
use open_help_desk.Settings.Service.{is_among, mfa_required_for, mfa_enabled, mfa_enforced_roles}

true_is_false : true ≡ false → ⊥
true_is_false h = cc

is_among_iff : (role : Text) (rs : List Text) → (is_among role rs ≡ true) ↔ IsRow role rs
unfolding is_among
is_among_iff role [] = ground arith
is_among_iff role (r ∷ rs) =
    let ih = is_among_iff role rs in
    let same = text_eq_iff r role in
    elim (Bool-cases (text_eq r role)) [
      | inl hit ↦ rw hit (λ h. inl (sym (same.0 hit)), λ h. refl)
      | inr miss ↦ rw miss (
        λ h. inr (ih.0 h),
        elim [
          | inl here ↦ absurd (true_is_false (sym (same.1 (sym here)) ∙ miss))
          | inr later ↦ ih.1 later
        ],
      )
    ]

switched_on : (o : Option Json) → (decoded false to_bool o ≡ true) ↔ (o ≡ some (boolean true))
unfolding to_bool
switched_on none = ground arith
switched_on (some null) = ground arith
switched_on (some (boolean true)) = ground arith
switched_on (some (boolean false)) = ground arith
switched_on (some (integer n)) = ground arith
switched_on (some (decimal t)) = ground arith
switched_on (some (text t)) = ground arith
switched_on (some (array vs)) = ground arith
switched_on (some (object t)) = ground arith

-- The value is an array of which every element decodes, and the text is one of them.
abbrev pub IsListed : Text → Option Json → Type 0
IsListed role o =
    (vs : JsonList) × (ts : List Text) × (o ≡ some (array vs))
    × (items_to_texts vs ≡ ok ts)
    × IsRow role ts

same_texts : {ts us : List Text} → ok ts ≡ ok us → ts ≡ us
same_texts h = ground arith

IsListed-array :
    (role : Text) (vs : JsonList) (o : Result (List Text))
    → items_to_texts vs ≡ o
    → IsRow role (elim o [ ok ts ↦ ts | err e ↦ [] ]) ↔ IsListed role (some (array vs))
IsListed-array role vs (ok ts) fine = (
  λ h. (vs, ts, refl, fine, h),
  λ (us, others, there, decodes, row).
      let same : ts ≡ others = same_texts (ground arith) in rw same row,
)
IsListed-array role vs (err e) bad =
    (λ h. absurd h, λ (us, others, there, decodes, row). absurd (ground arith))

listed : (role : Text) (o : Option Json) → IsRow role (decoded [] to_texts o) ↔ IsListed role o
unfolding to_texts
listed role none = (λ h. absurd h, λ (vs, ts, there, decodes, row). absurd cc)
listed role (some null) = (λ h. absurd h, λ (vs, ts, there, decodes, row). absurd cc)
listed role (some (boolean b)) = (λ h. absurd h, λ (vs, ts, there, decodes, row). absurd cc)
listed role (some (integer n)) = (λ h. absurd h, λ (vs, ts, there, decodes, row). absurd cc)
listed role (some (decimal t)) = (λ h. absurd h, λ (vs, ts, there, decodes, row). absurd cc)
listed role (some (text t)) = (λ h. absurd h, λ (vs, ts, there, decodes, row). absurd cc)
listed role (some (object t)) = (λ h. absurd h, λ (vs, ts, there, decodes, row). absurd cc)
listed role (some (array vs)) = IsListed-array role vs (items_to_texts vs) refl

-- If the database refuses nothing, `MFARequiredFor` returns true for a role exactly if the setting
-- mfa_enabled is stored as true and mfa_enforced_roles is stored as an array of strings and nulls
-- that has the role's name.
pub mfa_required_for_iff :
    (now_at : ℕ → Time) (uuid_at : ℕ → Uuid) (w : World SettingsDb) (role : Text)
    → (b : Bool) × ((mfa_required_for role (calm now_at uuid_at) w).0 ≡ ok b)
      × ((b ≡ true) ↔ (
          (lookup Key.mfa_enabled w.db.settings ≡ some (boolean true))
          × IsListed role (lookup Key.mfa_enforced_roles w.db.settings)))
unfolding mfa_required_for ◌>>=◌ mfa_enabled mfa_enforced_roles pure
mfa_required_for_iff now_at uuid_at w role =
    let on = is_on-calm now_at uuid_at w Key.mfa_enabled in
    let w' = record w { calls = suc w.calls } in
    let roles = texts_at-calm now_at uuid_at w' Key.mfa_enforced_roles in
    let switch = switched_on (lookup Key.mfa_enabled w.db.settings) in
    let list = listed role (lookup Key.mfa_enforced_roles w.db.settings) in
    let among =
      is_among_iff role (decoded [] to_texts (lookup Key.mfa_enforced_roles w.db.settings)) in
    elim (Bool-cases (decoded false to_bool (lookup Key.mfa_enabled w.db.settings))) [
      | inl enabled ↦ (
        is_among role (decoded [] to_texts (lookup Key.mfa_enforced_roles w.db.settings)),
        rw on (rw enabled (rw roles refl)),
        (λ h. (switch.0 enabled, list.0 (among.0 h)), λ h. among.1 (list.1 h.1)),
      )
      | inr disabled ↦
          (false, rw on (rw disabled refl), (λ h. absurd cc, λ h. absurd (ground arith)))
    ]
