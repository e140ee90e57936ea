-- ===== src/Group/Store.antt =====
-- The tables of groups, their members and their scopes:
-- backend/internal/database/groupstore/groupstore.go, with the statements of
-- backend/queries/groups.sql. `name_le` is the order of the database's collation.
use open_help_desk.Base.{
  Bool, true, false, not, ◌&&◌, ◌||◌, Option, none, some, List, [], ◌∷◌, ◌++◌, Uuid, map,
  if◌then◌else◌, ◌==◌, is_none, is_some,
}
use open_help_desk.Base.Table.{find_row, select_rows, update_rows, delete_rows}
use open_help_desk.Base.Order.{sort_by}
use open_help_desk.Base.Text.{Text, text_eq}
use open_help_desk.Exec.{Done, Exec, ok, err, database, found, statement, query, write}
use open_help_desk.Group.{Group, GroupScope}

pub record Member : Type 0 where
  pub group_id : Uuid
  pub user_id : Uuid

pub record GroupDb : Type 0 where
  pub groups : List Group
  pub members : List Member
  pub scopes : List GroupScope

-- The id and the name are unique.
abbrev pub is_free : Group → List Group → Bool
is_free g gs = is_none (find_row (λ q. (q.id == g.id) || text_eq q.name g.name) gs)

unfoldable pub create : Group → Exec GroupDb Done
create g = statement λ s.
    if is_free g s.groups
    then (ok tt, record s { groups = s.groups ++ g ∷ [] })
    else (err database, s)

unfoldable pub get_by_id : Uuid → Exec GroupDb Group
get_by_id id = query (λ s. found (find_row (λ g. g.id == id) s.groups))

abbrev pub is_name_free : Group → List Group → Bool
is_name_free g gs =
    is_none (find_row (λ q. q.id == g.id) gs)
    || is_none (find_row (λ q. not (q.id == g.id) && text_eq q.name g.name) gs)

unfoldable pub update : Group → Exec GroupDb Done
update g = statement λ s.
    if is_name_free g s.groups
    then (
      ok tt,
      record s {
        groups =
            update_rows (λ q. q.id == g.id)
              (λ q. record q { name = g.name; description = g.description }) s.groups;
      },
    )
    else (err database, s)

-- `ON DELETE CASCADE` on members and scopes
unfoldable pub delete : Uuid → Exec GroupDb Done
delete id = write λ s. record {
  groups = delete_rows (λ g. g.id == id) s.groups;
  members = delete_rows (λ m. m.group_id == id) s.members;
  scopes = delete_rows (λ c. c.group_id == id) s.scopes;
}

abbrev pub is_member : Uuid → Uuid → Member → Bool
is_member group_id user_id m = (m.group_id == group_id) && (m.user_id == user_id)

-- `ON CONFLICT DO NOTHING`, and the foreign key on groups
unfoldable pub add_member : Uuid → Uuid → Exec GroupDb Done
add_member group_id user_id = statement λ s.
    if is_some (find_row (is_member group_id user_id) s.members)
    then (ok tt, s)
    else if is_some (find_row (λ g. g.id == group_id) s.groups)
    then (
      ok tt,
      record s { members = s.members ++ record { group_id = group_id; user_id = user_id } ∷ [] },
    )
    else (err database, s)

unfoldable pub remove_member : Uuid → Uuid → Exec GroupDb Done
remove_member group_id user_id =
    write (λ s. record s { members = delete_rows (is_member group_id user_id) s.members })

unfoldable pub list_members : Uuid → Exec GroupDb (List Uuid)
list_members group_id = query (λ s.
    ok (map (λ (m : Member). m.user_id) (select_rows (λ m. m.group_id == group_id) s.members)))

-- `COALESCE(type_id, '00000000-…')` of the unique index
abbrev pub coalesced : Option Uuid → Uuid
coalesced none = 0
coalesced (some id) = id

abbrev pub same_scope : GroupScope → GroupScope → Bool
same_scope a b =
    (a.group_id == b.group_id)
    && (a.category_id == b.category_id)
    && (coalesced a.type_id == coalesced b.type_id)

unfoldable pub add_scope : GroupScope → Exec GroupDb Done
add_scope c = statement λ s.
    if is_some (find_row (same_scope c) s.scopes)
    then (ok tt, s)
    else if is_some (find_row (λ g. g.id == c.group_id) s.groups)
    then (ok tt, record s { scopes = s.scopes ++ c ∷ [] })
    else (err database, s)

-- `type_id = $2 OR (type_id IS NULL AND $2 IS NULL)`
abbrev pub same_type : Option Uuid → Option Uuid → Bool
same_type none none = true
same_type (some a) (some b) = a == b
same_type _ _ = false

unfoldable pub remove_scope : Uuid → Uuid → Option Uuid → Exec GroupDb Done
remove_scope group_id category_id type_id = write λ s. record s {
  scopes =
      delete_rows
        (λ c.
          (c.group_id == group_id) && (c.category_id == category_id) && same_type c.type_id type_id)
        s.scopes;
}

unfoldable pub list_scopes : Uuid → Exec GroupDb (List GroupScope)
list_scopes group_id = query (λ s. ok (select_rows (λ c. c.group_id == group_id) s.scopes))

-- `type_id IS NULL OR type_id = $2`, where no comparison with NULL holds
abbrev pub covers : Uuid → Option Uuid → GroupScope → Bool
covers category_id type_id c =
    (c.category_id == category_id)
    && (is_none c.type_id || elim c.type_id [
      | none ↦ false
      | some own ↦ elim type_id [ none ↦ false | some other ↦ own == other ]
    ])

module _ (name_le : Text → Text → Bool) where
  -- `ORDER BY name`
  abbrev pub by_name : Group → Group → Bool
  by_name g h = name_le g.name h.name

  unfoldable pub list_groups : Exec GroupDb (List Group)
  list_groups = query (λ s. ok (sort_by by_name s.groups))

  unfoldable pub list_groups_for_user : Uuid → Exec GroupDb (List Group)
  list_groups_for_user user_id = query λ s. ok (
      sort_by by_name
        (select_rows (λ g. is_some (find_row (is_member g.id user_id) s.members)) s.groups))

  -- `SELECT DISTINCT g.* FROM groups g JOIN group_scopes gs ON g.id = gs.group_id`
  abbrev pub joined : (GroupScope → Bool) → GroupDb → List Group
  joined test s = sort_by by_name (
      select_rows (λ g. is_some (find_row (λ c. (c.group_id == g.id) && test c) s.scopes)) s.groups)

  unfoldable pub list_groups_in_scope : Uuid → Option Uuid → Exec GroupDb (List Group)
  list_groups_in_scope category_id type_id = query (λ s. ok (joined (covers category_id type_id) s))

  unfoldable pub list_groups_for_exact_scope : Uuid → Option Uuid → Exec GroupDb (List Group)
  list_groups_for_exact_scope category_id type_id =
      query λ s. ok (joined (λ c. (c.category_id == category_id) && same_type c.type_id type_id) s)
