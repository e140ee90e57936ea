-- ===== src/CustomField/Resolution.antt =====
-- The fields of a ticket's classification: `ResolveFieldsForCTI` of
-- backend/internal/domain/customfield/service.go.
use open_help_desk.Base.{
  ℕ, suc, ◌≡◌, refl, ◌↔◌, inl, inr, true, false, Option, none, some, List, [], ◌∷◌, ◌++◌, Uuid,
  Time, arith, Option-cases,
}
use open_help_desk.Base.Int.{ℤ, leb_ℤ}
use open_help_desk.Base.Order.{
  IsRow, IsRow-sort_by, IsRow-select_rows, sort_by, IsSorted, IsOrder, IsSorted-sort_by,
}
use open_help_desk.Base.Table.{select_rows}
use open_help_desk.Exec.{World, calm, ok, pure, query, statement, ◌>>=◌}
use open_help_desk.CustomField.{FieldDef, Assignment, ScopeType, category, type, item}
use open_help_desk.CustomField.Store.{
  FieldDb, in_scope, with_def, join_defs, by_sort_order, list_assignments,
}
use open_help_desk.CustomField.Service.{resolve_fields_for_cti, level_fields}

-- The assignment, with the definition of its field, stands at the node.
abbrev pub IsAssigned : ScopeType → Option Uuid → FieldDb → Assignment → Type 0
IsAssigned scope_type none s a = ⊥
IsAssigned scope_type (some id) s a =
    (row : Assignment) × IsRow row s.assignments
    × (in_scope scope_type id row ≡ true)
    × (with_def s.defs row ≡ some a)

-- The list holds the assignments of the node, by their sort order.
abbrev pub IsLevel : ScopeType → Option Uuid → FieldDb → List Assignment → Type 0
IsLevel scope_type id s xs =
    IsSorted by_sort_order xs × ((a : Assignment) → IsRow a xs ↔ IsAssigned scope_type id s a)

IsOrder-by_sort_order : IsOrder by_sort_order
IsOrder-by_sort_order = record {
  trans = λ a b c h k. leb_trans a.sort_order b.sort_order c.sort_order h k;
  total = λ a b h. leb_total a.sort_order b.sort_order h;
}
  where
    leb_trans : (a b c : ℤ) → leb_ℤ a b ≡ true → leb_ℤ b c ≡ true → leb_ℤ a c ≡ true
    leb_trans a b c h k = ground arith

    leb_total : (a b : ℤ) → leb_ℤ a b ≡ false → leb_ℤ b a ≡ true
    leb_total a b h = ground arith

IsRow-join_defs :
    (defs : List FieldDef) (rows : List Assignment) (a : Assignment)
    → IsRow a (join_defs defs rows)
      ↔ ((row : Assignment) × IsRow row rows × (with_def defs row ≡ some a))
unfolding join_defs
IsRow-join_defs defs [] a = (λ h. absurd h, λ h. absurd h.1)
IsRow-join_defs defs (r ∷ rows) a =
    let ih = IsRow-join_defs defs rows a in
    elim (Option-cases (with_def defs r)) [
      | inl lost ↦ rw lost (
        λ h. let (row, at, joined) = ih.0 h in (row, inr at, joined),
        λ (row, at, joined). elim at [
          | inl same ↦ absurd (ground arith)
          | inr later ↦ ih.1 (row, later, joined)
        ],
      )
      | inr (b, there) ↦ rw there (
        elim [
          | inl same ↦ (r, inl refl, ground arith)
          | inr later ↦ let (row, at, joined) = ih.0 later in (row, inr at, joined)
        ],
        λ (row, at, joined). elim at [
          | inl same ↦ inl (ground arith)
          | inr later ↦ inr (ih.1 (row, later, joined))
        ],
      )
    ]

IsLevel-sort_by :
    (scope_type : ScopeType) (id : Uuid) (s : FieldDb)
    → IsLevel scope_type (some id) s (
        sort_by by_sort_order
          (join_defs s.defs (select_rows (in_scope scope_type id) s.assignments)))
IsLevel-sort_by scope_type id s =
    let chosen = select_rows (in_scope scope_type id) s.assignments in
    (
      IsSorted-sort_by IsOrder-by_sort_order (join_defs s.defs chosen),
      λ a.
          let sorted = IsRow-sort_by by_sort_order (join_defs s.defs chosen) a in
          let joined = IsRow-join_defs s.defs chosen a in
          let picked =
            λ (row : Assignment). IsRow-select_rows (in_scope scope_type id) s.assignments row in
          (
            λ h.
                let (row, at, same) = joined.0 (sorted.0 h) in
                let (stored, hit) = (picked row).0 at in (row, stored, hit, same),
            λ (row, stored, hit, same).
                sorted.1 (joined.1 (row, (picked row).1 (stored, hit), same)),
          ),
    )

module _ (now_at : ℕ → Time) (uuid_at : ℕ → Uuid) where
  level_fields-IsLevel :
      (scope_type : ScopeType) (id : Option Uuid) (w : World FieldDb)
      → (xs : List Assignment) × (n : ℕ) × (level_fields scope_type id (calm now_at uuid_at) w
          ≡ (ok xs, record w { calls = n }))
        × IsLevel scope_type id w.db xs
  unfolding pure list_assignments query statement
  level_fields-IsLevel scope_type none w = ([], w.calls, refl, (tt, λ a. (λ h. h, λ h. h)))
  level_fields-IsLevel scope_type (some id) w =
      (_, suc w.calls, refl, IsLevel-sort_by scope_type id w.db)

  -- If the database refuses nothing, `ResolveFieldsForCTI` returns the assignments of the category,
  -- then those of the type and then those of the item, where the ticket has a type and an item.
  -- Each of the three holds exactly the assignments of its node, by their sort order.
  pub resolve_fields_ok :
      (category_id : Uuid) (type_id item_id : Option Uuid) (w : World FieldDb)
      → (cs ts is : List Assignment) × ((resolve_fields_for_cti category_id type_id item_id
            (calm now_at uuid_at)
            w).0
          ≡ ok ((cs ++ ts) ++ is))
        × IsLevel category (some category_id) w.db cs
        × IsLevel type type_id w.db ts
        × IsLevel item item_id w.db is
  unfolding resolve_fields_for_cti ◌>>=◌ pure
  resolve_fields_ok category_id type_id item_id w =
      let (cs, n, run, level) = level_fields-IsLevel category (some category_id) w in
      let (ts, m, run', level') = level_fields-IsLevel type type_id (record w { calls = n }) in
      let (is, k, run'', level'') = level_fields-IsLevel item item_id (record w { calls = m }) in
      (cs, ts, is, rw run (rw run' (rw run'' refl)), level, level', level'')
