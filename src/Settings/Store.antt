-- ===== src/Settings/Store.antt =====
-- The settings table: backend/internal/database/adminstore/adminstore.go, with the statements of
-- backend/queries/settings.sql.
use open_help_desk.Base.{
  ◌≡◌, refl, ap, false, Option, none, some, List, [], ◌∷◌, if◌then◌else◌, Bool-cases, inl, inr, ◌∙◌,
}
use open_help_desk.Base.Table.{find_row}
use open_help_desk.Base.Text.{Text, text_eq, text_eq_iff, text_eq_refl}
use open_help_desk.Exec.{Done, Exec, ok, found, query, write}
use open_help_desk.Settings.{Json}

pub record Setting : Type 0 where
  pub key : Text
  pub value : Json

pub record SettingsDb : Type 0 where
  pub settings : List Setting

abbrev pub value_of : Option Setting → Option Json
value_of none = none
value_of (some r) = some r.value

unfoldable pub lookup : Text → List Setting → Option Json
unfolding find_row
lookup key rows = value_of (find_row (λ r. text_eq r.key key) rows)

unfoldable pub get : Text → Exec SettingsDb Json
get key = query (λ s. found (lookup key s.settings))

-- `ON CONFLICT (key) DO UPDATE SET value = EXCLUDED.value`
unfoldable pub put : Text → Json → List Setting → List Setting
put key value [] = record { key = key; value = value } ∷ []
put key value (r ∷ rows) =
    let rest = put key value rows in
    if text_eq r.key key then record r { value = value } ∷ rows else r ∷ rest

unfoldable pub set : Text → Json → Exec SettingsDb Done
set key value = write (λ s. record s { settings = put key value s.settings })

-- The map of the rows, which has no order.
unfoldable pub list : Exec SettingsDb (List Setting)
list = query (λ s. ok s.settings)

pub lookup-put_same :
    (key : Text) (value : Json) (rows : List Setting) → lookup key (put key value rows) ≡ some value
unfolding lookup put find_row
lookup-put_same key value [] = rw (text_eq_refl key) refl
lookup-put_same key value (r ∷ rows) =
    let ih = lookup-put_same key value rows in
    elim (Bool-cases (text_eq r.key key)) [
      | inl hit ↦ rw hit (rw hit refl)
      | inr miss ↦ rw miss (rw miss ih)
    ]

pub lookup-put_other :
    (key other : Text) (value : Json) (rows : List Setting)
    → text_eq key other ≡ false
    → lookup other (put key value rows) ≡ lookup other rows
unfolding lookup put find_row
lookup-put_other key other value [] h = rw h refl
lookup-put_other key other value (r ∷ rows) h =
    let ih = lookup-put_other key other value rows h in
    elim (Bool-cases (text_eq r.key key)) [
      | inl hit ↦
          let same = (text_eq_iff r.key key).0 hit in
          rw hit (rw (ap (λ t. text_eq t other) same ∙ h) refl)
      | inr miss ↦ rw miss (elim (Bool-cases (text_eq r.key other)) [
        | inl found_here ↦ rw found_here refl
        | inr later ↦ rw later ih
      ])
    ]
