-- ===== src/Category/Service.antt =====
-- The service of the classification: backend/internal/domain/category/service.go. The methods that
-- are left out only call the store.
use open_help_desk.Base.{true, Uuid}
use open_help_desk.Base.Int.{ℤ}
use open_help_desk.Base.Text.{Text, trim_space, is_empty}
use open_help_desk.Exec.{Done, Exec, pure, raise_if, fresh, name_required, ◌>>=◌, ◌>>◌}
use open_help_desk.Category.{Category, CtiType, CtiItem}
use open_help_desk.Category.Store
use open_help_desk.Category.Store.{CategoryDb}

abbrev pub new_category : Text → ℤ → Uuid → Category
new_category name sort_order id = record {
  id = id;
  name = trim_space name;
  sort_order = sort_order;
  active = true;
}

unfoldable pub create_category : Text → ℤ → Exec CategoryDb Category
unfolding trim_space
create_category name sort_order = do
  id ← fresh
  raise_if (is_empty (trim_space name)) name_required
  Store.create_category (new_category name sort_order id)
  pure (new_category name sort_order id)

-- The name is stored as it is given.
unfoldable pub update_category : Category → Exec CategoryDb Done
unfolding trim_space
update_category c = do
  raise_if (is_empty (trim_space c.name)) name_required
  Store.update_category c

abbrev pub new_type : Uuid → Text → ℤ → Uuid → CtiType
new_type category_id name sort_order id = record {
  id = id;
  category_id = category_id;
  name = trim_space name;
  sort_order = sort_order;
  active = true;
}

unfoldable pub create_type : Uuid → Text → ℤ → Exec CategoryDb CtiType
unfolding trim_space
create_type category_id name sort_order = do
  Store.get_category category_id
  id ← fresh
  raise_if (is_empty (trim_space name)) name_required
  Store.create_type (new_type category_id name sort_order id)
  pure (new_type category_id name sort_order id)

unfoldable pub update_type : CtiType → Exec CategoryDb Done
unfolding trim_space
update_type t = do raise_if (is_empty (trim_space t.name)) name_required; Store.update_type t

abbrev pub new_item : Uuid → Text → ℤ → Uuid → CtiItem
new_item type_id name sort_order id = record {
  id = id;
  type_id = type_id;
  name = trim_space name;
  sort_order = sort_order;
  active = true;
}

unfoldable pub create_item : Uuid → Text → ℤ → Exec CategoryDb CtiItem
unfolding trim_space
create_item type_id name sort_order = do
  Store.get_type type_id
  id ← fresh
  raise_if (is_empty (trim_space name)) name_required
  Store.create_item (new_item type_id name sort_order id)
  pure (new_item type_id name sort_order id)

unfoldable pub update_item : CtiItem → Exec CategoryDb Done
unfolding trim_space
update_item i = do raise_if (is_empty (trim_space i.name)) name_required; Store.update_item i
