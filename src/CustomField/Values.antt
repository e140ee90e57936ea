-- ===== src/CustomField/Values.antt =====
-- The values that tickets have: `SetValue` of backend/internal/domain/customfield/service.go.
use open_help_desk.Base.{
  ℕ, suc, ◌≡◌, ◌↔◌, ◌⊎◌, inl, inr, true, ◌&&◌, Option, none, some, List, [], ◌∷◌, Uuid, Time, arith,
  if◌then◌else◌, ◌==◌, Bool-cases, Option-cases,
}
use open_help_desk.Base.Order.{IsRow}
use open_help_desk.Base.Table.{find_row, delete_rows}
use open_help_desk.Base.Text.{Text, text_eq, text_eq_iff, is_empty}
use open_help_desk.Exec.{World, Env, calm, ok, raise_if, statement, query, write, now, ◌>>=◌}
use open_help_desk.CustomField.{FieldDef, is_select}
use open_help_desk.CustomField.Store
use open_help_desk.CustomField.Store.{FieldDb, ValueRow, is_value, def_of, upserted}
use open_help_desk.CustomField.Service.{set_value, set_known_value, contains}

abbrev value_of : Option ValueRow → Option Text
value_of none = none
value_of (some v) = some v.value

-- The value of a field of a ticket.
unfoldable pub value_at : Uuid → Uuid → List ValueRow → Option Text
unfolding find_row
value_at ticket_id field_def_id vs = value_of (find_row (is_value ticket_id field_def_id) vs)

value_at-upserted :
    (t f u g : Uuid) (value : Text) (at : Time) (vs : List ValueRow)
    → value_at u g (upserted t f value at vs)
      ≡ (if (t == u) && (f == g) then some value else value_at u g vs)
unfolding value_at upserted find_row
value_at-upserted t f u g value at [] = ground arith
value_at-upserted t f u g value at (v ∷ vs) =
    let ih = value_at-upserted t f u g value at vs in
    elim (Bool-cases (is_value t f v)) [
      | inl here ↦ elim (Bool-cases (is_value u g v)) [
        | inl same ↦ ground arith
        | inr other ↦ ground arith
      ]
      | inr later ↦ elim (Bool-cases (is_value u g v)) [
        | inl same ↦ ground arith
        | inr other ↦ ground arith
      ]
    ]

value_at-delete_rows :
    (t f u g : Uuid) (vs : List ValueRow)
    → value_at u g (delete_rows (is_value t f) vs)
      ≡ (if (t == u) && (f == g) then none else value_at u g vs)
unfolding value_at find_row delete_rows
value_at-delete_rows t f u g [] = ground arith
value_at-delete_rows t f u g (v ∷ vs) =
    let ih = value_at-delete_rows t f u g vs in
    elim (Bool-cases (is_value t f v)) [
      | inl here ↦ elim (Bool-cases (is_value u g v)) [
        | inl same ↦ ground arith
        | inr other ↦ ground arith
      ]
      | inr later ↦ elim (Bool-cases (is_value u g v)) [
        | inl same ↦ ground arith
        | inr other ↦ ground arith
      ]
    ]

contains_iff : (os : List Text) (v : Text) → (contains os v ≡ true) ↔ IsRow v os
unfolding contains
contains_iff [] v = ground arith
contains_iff (o ∷ os) v =
    let ih = contains_iff os v in
    let same = text_eq_iff o v in
    elim (Bool-cases (text_eq o v)) [ inl hit ↦ ground arith | inr miss ↦ ground arith ]

-- The field exists and is active, and takes the value if it is a select.
abbrev pub IsAccepted : Uuid → Text → FieldDb → Type 0
IsAccepted f value s =
    (d : FieldDef) × (def_of f s.defs ≡ some d)
    × (d.active ≡ true)
    × (is_select d.field_type ≡ true → IsRow value d.options)

accepted_def :
    (f : Uuid) (value : Text) (s : FieldDb) (d : FieldDef)
    → IsAccepted f value s
    → def_of f s.defs ≡ some d
    → (d.active ≡ true) × (is_select d.field_type ≡ true → IsRow value d.options)
accepted_def f value s d (e, there, on, option) h =
    let same : d ≡ e = ground arith in rw same (on, option)

module _ (t f : Uuid) (value : Text) where
  -- When `SetValue` succeeds, the field of the ticket has the value, or none if the value is empty;
  -- every other field of every ticket has the value that it had.
  pub set_value_ok :
      (env : Env) (w : World FieldDb) (u g : Uuid)
      → (set_value t f value env w).0 ≡ ok tt
      → value_at u g (set_value t f value env w).1.db.values ≡ (
          if (t == u) && (f == g)
          then if is_empty value then none else some value
          else value_at u g w.db.values)
  unfolding set_value set_known_value Store.delete_value Store.get_field_def Store.upsert_value
      write statement query now raise_if ◌>>=◌
  set_value_ok env w u g h =
      let c = w.calls in
      let removed = value_at-delete_rows t f u g w.db.values in
      let stored = value_at-upserted t f u g value (env.now_at (suc c)) w.db.values in
      let refused0 = Bool-cases (env.fails_at c) in
      let refused1 = Bool-cases (env.fails_at (suc (suc c))) in
      elim (Bool-cases (is_empty value)) [
        | inl empty ↦ ground arith
        | inr filled ↦ elim (Option-cases (def_of f w.db.defs)) [
          | inl missing ↦ ground arith
          | inr (d, there) ↦
              let active = Bool-cases d.active in
              let chosen = Bool-cases (is_select d.field_type) in
              let allowed = Bool-cases (contains d.options value) in ground arith
        ]
      ]

  -- If the database refuses nothing, `SetValue` succeeds exactly if the value is empty or the field
  -- exists, is active and, if it is a select, has the value among its options.
  pub set_value_iff :
      (now_at : ℕ → Time) (uuid_at : ℕ → Uuid) (w : World FieldDb)
      → ((set_value t f value (calm now_at uuid_at) w).0 ≡ ok tt)
        ↔ ((is_empty value ≡ true) ⊎ IsAccepted f value w.db)
  unfolding set_value set_known_value Store.delete_value Store.get_field_def Store.upsert_value
      write statement query now raise_if ◌>>=◌
  set_value_iff now_at uuid_at w = elim (Bool-cases (is_empty value)) [
    | inl empty ↦ (λ h. inl empty, λ h. ground arith)
    | inr filled ↦ elim (Option-cases (def_of f w.db.defs)) [
      | inl missing ↦ (
        λ h. absurd (ground arith),
        elim [ inl e ↦ absurd (ground arith) | inr (d, there, on, option) ↦ absurd (ground arith) ],
      )
      | inr (d, there) ↦
          let listed = contains_iff d.options value in
          let active = Bool-cases d.active in
          let chosen = Bool-cases (is_select d.field_type) in
          let allowed = Bool-cases (contains d.options value) in
          (
            λ h. inr (d, there, ground arith, λ s. ground arith),
            elim [
              | inl e ↦ absurd (ground arith)
              | inr accepted ↦
                  let (on, option) = accepted_def f value w.db d accepted there in
                  elim chosen [
                    | inl select ↦ let row = option select in ground arith
                    | inr free ↦ ground arith
                  ]
            ],
          )
    ]
  ]
