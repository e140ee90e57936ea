-- ===== src/CustomField/Store.antt =====
-- The tables of custom fields: backend/internal/database/customfieldstore/customfieldstore.go,
-- with the statements of backend/queries/custom_fields.sql. `name_le` is the order of the
-- database's collation.
use open_help_desk.Base.{
  Bool, not, ◌&&◌, ◌||◌, Option, none, some, List, [], ◌∷◌, ◌++◌, Uuid, Time, map, if◌then◌else◌,
  ◌==◌, is_none, is_some,
}
use open_help_desk.Base.Int.{ℤ, to_int32, leb_ℤ, ltb_ℤ}
use open_help_desk.Base.Order.{sort_by}
use open_help_desk.Base.Table.{find_row, select_rows, update_rows, delete_rows}
use open_help_desk.Base.Text.{Text, text_eq}
use open_help_desk.Exec.{Done, Exec, ok, err, database, found, statement, query, write, now, ◌>>=◌}
use open_help_desk.CustomField.{FieldDef, Assignment, ScopeType, TicketFieldValue, scope_text}

-- A row of `ticket_custom_field_values`.
pub record ValueRow : Type 0 where
  pub ticket_id : Uuid
  pub field_def_id : Uuid
  pub value : Text
  pub updated_at : Time

-- The column `field_def` is none in the table.
pub record FieldDb : Type 0 where
  pub defs : List FieldDef
  pub assignments : List Assignment
  pub values : List ValueRow

abbrev pub def_of : Uuid → List FieldDef → Option FieldDef
def_of id defs = find_row (λ (d : FieldDef). d.id == id) defs

-- The row as `RETURNING` gives it back: the sort order is an INTEGER, and `created_at` is NOW().
unfoldable pub def_row : FieldDef → Time → FieldDef
def_row d at = record d { sort_order = to_int32 d.sort_order; created_at = at }

-- The id and the name are unique.
unfoldable pub create_field_def : FieldDef → Exec FieldDb FieldDef
unfolding def_row
create_field_def d = do
  at ← now
  statement λ s.
      if is_none (find_row (λ q. (q.id == d.id) || text_eq q.name d.name) s.defs)
      then (ok (def_row d at), record s { defs = s.defs ++ def_row d at ∷ [] })
      else (err database, s)

unfoldable pub get_field_def : Uuid → Exec FieldDb FieldDef
get_field_def id = query (λ s. found (def_of id s.defs))

unfoldable pub def_columns : FieldDef → FieldDef → FieldDef
def_columns d old = record old {
  name = d.name;
  field_type = d.field_type;
  options = d.options;
  sort_order = to_int32 d.sort_order;
  active = d.active;
}

unfoldable pub update_field_def : FieldDef → Exec FieldDb Done
unfolding def_columns
update_field_def d = statement λ s.
    if is_none (def_of d.id s.defs)
      || is_none (find_row (λ q. not (q.id == d.id) && text_eq q.name d.name) s.defs)
    then (ok tt, record s { defs = update_rows (λ q. q.id == d.id) (def_columns d) s.defs })
    else (err database, s)

abbrev pub in_scope : ScopeType → Uuid → Assignment → Bool
in_scope scope_type scope_id a =
    text_eq (scope_text a.scope_type) (scope_text scope_type) && (a.scope_id == scope_id)

-- The keys of the table, and the foreign key on the definitions.
abbrev pub is_new_assignment : Assignment → FieldDb → Bool
is_new_assignment a s =
    is_some (def_of a.field_def_id s.defs)
    && is_none (
        find_row
          (λ q.
            (q.id == a.id)
            || ((q.field_def_id == a.field_def_id) && in_scope a.scope_type a.scope_id q))
          s.assignments)

unfoldable pub assignment_row : Assignment → Assignment
assignment_row a = record a { field_def = none; sort_order = to_int32 a.sort_order }

unfoldable pub create_assignment : Assignment → Exec FieldDb Assignment
unfolding assignment_row
create_assignment a = statement λ s.
    if is_new_assignment a s
    then (ok (assignment_row a), record s { assignments = s.assignments ++ assignment_row a ∷ [] })
    else (err database, s)

-- The columns of the definition that the list joins in; the others are zero.
abbrev pub joined_def : FieldDef → FieldDef
joined_def d = record d { sort_order = ℤ.pos 0; created_at = 0 }

abbrev pub with_def : List FieldDef → Assignment → Option Assignment
with_def defs a = elim (def_of a.field_def_id defs) [
  | none ↦ none
  | some d ↦ some (record a { field_def = some (joined_def d) })
]

abbrev pub push : {A : Type 0} → Option A → List A → List A
push none xs = xs
push (some x) xs = x ∷ xs

-- `JOIN custom_field_defs d ON a.field_def_id = d.id`
unfoldable pub join_defs : List FieldDef → List Assignment → List Assignment
join_defs defs [] = []
join_defs defs (a ∷ rest) = push (with_def defs a) (join_defs defs rest)

abbrev pub by_sort_order : Assignment → Assignment → Bool
by_sort_order a b = leb_ℤ a.sort_order b.sort_order

unfoldable pub list_assignments : ScopeType → Uuid → Exec FieldDb (List Assignment)
list_assignments scope_type scope_id = query λ s. ok (
    sort_by by_sort_order
      (join_defs s.defs (select_rows (in_scope scope_type scope_id) s.assignments)))

unfoldable pub get_assignment : Uuid → Exec FieldDb Assignment
get_assignment id = query (λ s. found (find_row (λ a. a.id == id) s.assignments))

unfoldable pub update_assignment : Assignment → Exec FieldDb Done
update_assignment a = write λ s. record s {
  assignments =
      update_rows (λ q. q.id == a.id)
        (λ q. record q {
          sort_order = to_int32 a.sort_order;
          visible_on_new = a.visible_on_new;
          required_on_new = a.required_on_new;
        })
        s.assignments;
}

unfoldable pub delete_assignment : Uuid → Exec FieldDb Done
delete_assignment id =
    write (λ s. record s { assignments = delete_rows (λ a. a.id == id) s.assignments })

abbrev pub is_value : Uuid → Uuid → ValueRow → Bool
is_value ticket_id field_def_id v = (v.ticket_id == ticket_id) && (v.field_def_id == field_def_id)

-- The row of the values, changed or added.
unfoldable pub upserted : Uuid → Uuid → Text → Time → List ValueRow → List ValueRow
upserted ticket_id field_def_id value at [] =
    record { ticket_id = ticket_id; field_def_id = field_def_id; value = value; updated_at = at }
    ∷ []
upserted ticket_id field_def_id value at (v ∷ vs) =
    let rest = upserted ticket_id field_def_id value at vs in
    if is_value ticket_id field_def_id v
    then record v { value = value; updated_at = at } ∷ vs
    else v ∷ rest

-- `ON CONFLICT (ticket_id, field_def_id) DO UPDATE`, and the foreign key on the definitions
unfoldable pub upsert_value : Uuid → Uuid → Text → Exec FieldDb Done
upsert_value ticket_id field_def_id value = do
  at ← now
  statement λ s.
      if is_some (def_of field_def_id s.defs)
      then (ok tt, record s { values = upserted ticket_id field_def_id value at s.values })
      else (err database, s)

unfoldable pub delete_value : Uuid → Uuid → Exec FieldDb Done
delete_value ticket_id field_def_id =
    write (λ s. record s { values = delete_rows (is_value ticket_id field_def_id) s.values })

abbrev pub ticket_value : ValueRow → FieldDef → TicketFieldValue
ticket_value v d = record {
  ticket_id = v.ticket_id;
  field_def_id = v.field_def_id;
  field_name = d.name;
  field_type = d.field_type;
  options = d.options;
  value = v.value;
  updated_at = v.updated_at;
}

abbrev pub paired : List FieldDef → ValueRow → Option (ValueRow × FieldDef)
paired defs v = elim (def_of v.field_def_id defs) [ none ↦ none | some d ↦ some (v, d) ]

unfoldable pub join_values : List FieldDef → List ValueRow → List (ValueRow × FieldDef)
join_values defs [] = []
join_values defs (v ∷ rest) = push (paired defs v) (join_values defs rest)

module _ (name_le : Text → Text → Bool) where
  -- `ORDER BY sort_order, name`
  abbrev pub def_le : FieldDef → FieldDef → Bool
  def_le d e =
      ltb_ℤ d.sort_order e.sort_order || (leb_ℤ d.sort_order e.sort_order && name_le d.name e.name)

  unfoldable pub list_field_defs : Exec FieldDb (List FieldDef)
  list_field_defs = query (λ s. ok (sort_by def_le s.defs))

  unfoldable pub list_values_for_ticket : Uuid → Exec FieldDb (List TicketFieldValue)
  list_values_for_ticket ticket_id = query λ s. ok (
      map (λ (p : ValueRow × FieldDef). ticket_value p.0 p.1)
        (sort_by (λ (p q : ValueRow × FieldDef). def_le p.1 q.1)
          (join_values s.defs (select_rows (λ (v : ValueRow). v.ticket_id == ticket_id) s.values))))
