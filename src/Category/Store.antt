-- ===== src/Category/Store.antt =====
-- The tables of the classification: backend/internal/database/categorystore/categorystore.go, with
-- the statements of backend/queries/categories.sql and the keys of the tables. `name_le` is the order
-- of the database's collation.
use open_help_desk.Base.{
  Bool, not, ◌||◌, ◌&&◌, List, [], ◌∷◌, ◌++◌, Uuid, if◌then◌else◌, ◌==◌, is_none, is_some,
}
use open_help_desk.Base.Int.{ℤ, to_int32, ltb_ℤ, leb_ℤ}
use open_help_desk.Base.Order.{sort_by}
use open_help_desk.Base.Table.{find_row, select_rows, update_rows, delete_rows}
use open_help_desk.Base.Text.{Text}
use open_help_desk.Exec.{Done, Exec, ok, err, database, found, statement, query, write}
use open_help_desk.Category.{Category, CtiType, CtiItem}

pub record CategoryDb : Type 0 where
  pub categories : List Category
  pub types : List CtiType
  pub items : List CtiItem

abbrev pub is_category : Uuid → Category → Bool
is_category id c = c.id == id

abbrev pub is_type : Uuid → CtiType → Bool
is_type id t = t.id == id

abbrev pub is_item : Uuid → CtiItem → Bool
is_item id i = i.id == id

abbrev pub has_category : CategoryDb → Uuid → Bool
has_category s id = is_some (find_row (is_category id) s.categories)

abbrev pub has_type : CategoryDb → Uuid → Bool
has_type s id = is_some (find_row (is_type id) s.types)

-- The sort orders are INTEGER columns.
unfoldable pub create_category : Category → Exec CategoryDb Done
create_category c = statement λ s.
    if not (has_category s c.id)
    then (
      ok tt,
      record s {
        categories = s.categories ++ record c { sort_order = to_int32 c.sort_order } ∷ [];
      },
    )
    else (err database, s)

unfoldable pub get_category : Uuid → Exec CategoryDb Category
get_category id = query (λ s. found (find_row (is_category id) s.categories))

abbrev pub category_columns : Category → Category → Category
category_columns c old = record old {
  name = c.name;
  sort_order = to_int32 c.sort_order;
  active = c.active;
}

unfoldable pub update_category : Category → Exec CategoryDb Done
update_category c =
    write λ s. record s {
      categories = update_rows (is_category c.id) (category_columns c) s.categories;
    }

-- Types that go, and with them their items: `ON DELETE CASCADE`
abbrev pub without_types : (CtiType → Bool) → CategoryDb → CategoryDb
without_types test s = record s {
  types = delete_rows test s.types;
  items =
      delete_rows (λ i. is_some (find_row (λ t. is_type i.type_id t && test t) s.types)) s.items;
}

unfoldable pub delete_category : Uuid → Exec CategoryDb Done
delete_category id = write λ s. record (without_types (λ t. t.category_id == id) s) {
  categories = delete_rows (is_category id) s.categories;
}

-- The foreign key on the categories
unfoldable pub create_type : CtiType → Exec CategoryDb Done
create_type t = statement λ s.
    if not (has_type s t.id) && has_category s t.category_id
    then (
      ok tt,
      record s { types = s.types ++ record t { sort_order = to_int32 t.sort_order } ∷ [] },
    )
    else (err database, s)

unfoldable pub get_type : Uuid → Exec CategoryDb CtiType
get_type id = query (λ s. found (find_row (is_type id) s.types))

abbrev pub type_columns : CtiType → CtiType → CtiType
type_columns t old = record old {
  category_id = t.category_id;
  name = t.name;
  sort_order = to_int32 t.sort_order;
  active = t.active;
}

-- The foreign key is looked at if there is a row to change.
unfoldable pub update_type : CtiType → Exec CategoryDb Done
update_type t = statement λ s.
    if not (has_type s t.id) || has_category s t.category_id
    then (ok tt, record s { types = update_rows (is_type t.id) (type_columns t) s.types })
    else (err database, s)

unfoldable pub delete_type : Uuid → Exec CategoryDb Done
delete_type id = write (without_types (is_type id))

unfoldable pub create_item : CtiItem → Exec CategoryDb Done
create_item i = statement λ s.
    if is_none (find_row (is_item i.id) s.items) && has_type s i.type_id
    then (
      ok tt,
      record s { items = s.items ++ record i { sort_order = to_int32 i.sort_order } ∷ [] },
    )
    else (err database, s)

unfoldable pub get_item : Uuid → Exec CategoryDb CtiItem
get_item id = query (λ s. found (find_row (is_item id) s.items))

abbrev pub item_columns : CtiItem → CtiItem → CtiItem
item_columns i old = record old {
  type_id = i.type_id;
  name = i.name;
  sort_order = to_int32 i.sort_order;
  active = i.active;
}

unfoldable pub update_item : CtiItem → Exec CategoryDb Done
update_item i = statement λ s.
    if is_none (find_row (is_item i.id) s.items) || has_type s i.type_id
    then (ok tt, record s { items = update_rows (is_item i.id) (item_columns i) s.items })
    else (err database, s)

unfoldable pub delete_item : Uuid → Exec CategoryDb Done
delete_item id = write (λ s. record s { items = delete_rows (is_item id) s.items })

module _ (name_le : Text → Text → Bool) where
  -- `ORDER BY sort_order, name`
  abbrev pub row_le : ℤ → Text → ℤ → Text → Bool
  row_le a name b other = ltb_ℤ a b || (leb_ℤ a b && name_le name other)

  unfoldable pub list_categories : Bool → Exec CategoryDb (List Category)
  list_categories active_only = query λ s. ok (
      sort_by (λ a b. row_le a.sort_order a.name b.sort_order b.name)
        (select_rows (λ c. not active_only || c.active) s.categories))

  unfoldable pub list_types : Uuid → Bool → Exec CategoryDb (List CtiType)
  list_types category_id active_only = query λ s. ok (
      sort_by (λ a b. row_le a.sort_order a.name b.sort_order b.name)
        (select_rows (λ t. (t.category_id == category_id) && (not active_only || t.active))
          s.types))

  unfoldable pub list_items : Uuid → Bool → Exec CategoryDb (List CtiItem)
  list_items type_id active_only = query λ s. ok (
      sort_by (λ a b. row_le a.sort_order a.name b.sort_order b.name)
        (select_rows (λ i. (i.type_id == type_id) && (not active_only || i.active)) s.items))
