-- ===== src/Category/Tree.antt =====
-- The classification is a tree, over the life of the service: all operations of
-- backend/internal/domain/category/service.go that write.
use open_help_desk.Base.{
  ◌≡◌, refl, ◌∙◌, Bool, true, false, List, [], ◌∷◌, Uuid, arith, ◌==◌, is_some,
}
use open_help_desk.Base.Table.{All, All-append, All-imp, find_row, delete_rows}
use open_help_desk.Base.Rows.{
  All-delete_rows, find_row-append, find_row-update_rows, find_row-delete_rows, find_row_none,
  All-set_rows,
}
use open_help_desk.Exec.{Env, World}
use open_help_desk.Exec.Keeps.{Keeps, keeps_rules, Keeps-checked, Keeps-write, Keeps-when}
use open_help_desk.Category.{Category, CtiType, CtiItem}
use open_help_desk.Category.Store
use open_help_desk.Category.Store.{
  CategoryDb, is_category, is_type, is_item, has_category, has_type, without_types,
  category_columns, type_columns, item_columns,
}
use open_help_desk.Category.Service
use open_help_desk.Category.Operation.{
  Operation, create_category, create_type, create_item, update_category, update_type, update_item,
  delete_category, delete_type, delete_item, run, run_all,
}

-- A type belongs to a category, and an item to a type.
abbrev pub IsTree : CategoryDb → Type 0
IsTree s =
    All (λ t. has_category s t.category_id ≡ true) s.types
    × All (λ i. has_type s i.type_id ≡ true) s.items

create_category-IsTree : (c : Category) → Keeps IsTree (Store.create_category c)
unfolding Store.create_category
create_category-IsTree c = Keeps-checked _ _ _ _ λ s (ts, is). (
  All-imp _ _ s.types (λ t h. find_row-append (is_category t.category_id) s.categories _ h) ts,
  is,
)

update_category-IsTree : (c : Category) → Keeps IsTree (Store.update_category c)
unfolding Store.update_category
update_category-IsTree c = Keeps-write _ λ s (ts, is). (
  All-imp _ _ s.types
      (λ t h.
        find_row-update_rows (is_category t.category_id) (is_category c.id) (category_columns c)
          s.categories (λ a. refl)
        ∙ h)
      ts,
  is,
)

-- Types that go with their items leave a tree, whatever stays of the categories has those of the types
-- that stay.
without_types-IsTree :
    (test : CtiType → Bool) (s : CategoryDb) (cs : List Category)
    → ((t : CtiType)
        → test t ≡ false
        → has_category s t.category_id ≡ true
        → is_some (find_row (is_category t.category_id) cs) ≡ true)
    → IsTree s
    → IsTree (record (without_types test s) { categories = cs })
without_types-IsTree test s cs keep (ts, is) = (
  All-delete_rows test s.types keep ts,
  All-delete_rows _ s.items
      (λ i stays h. find_row-delete_rows (is_type i.type_id) test s.types stays h) is,
)

delete_category-IsTree : (id : Uuid) → Keeps IsTree (Store.delete_category id)
unfolding Store.delete_category
delete_category-IsTree id = Keeps-write _ λ s tree.
    without_types-IsTree (λ t. t.category_id == id) s (delete_rows (is_category id) s.categories)
      (λ t stays h.
        find_row-delete_rows (is_category t.category_id) (is_category id) s.categories
          (find_row_none _ s.categories (λ c. ground arith)) h)
      tree

delete_type-IsTree : (id : Uuid) → Keeps IsTree (Store.delete_type id)
unfolding Store.delete_type
delete_type-IsTree id =
    Keeps-write _ λ s tree. without_types-IsTree (is_type id) s s.categories (λ t stays h. h) tree

delete_item-IsTree : (id : Uuid) → Keeps IsTree (Store.delete_item id)
unfolding Store.delete_item
delete_item-IsTree id =
    Keeps-write _ λ s (ts, is). (ts, All-delete_rows (is_item id) s.items (λ i stays h. h) is)

create_type-IsTree : (t : CtiType) → Keeps IsTree (Store.create_type t)
unfolding Store.create_type
create_type-IsTree t = Keeps-when _ _ _ _ λ s fits (ts, is). (
  All-append _ s.types _ ts (ground arith, tt),
  All-imp _ _ s.items (λ i h. find_row-append (is_type i.type_id) s.types _ h) is,
)

update_type-IsTree : (t : CtiType) → Keeps IsTree (Store.update_type t)
unfolding Store.update_type
update_type-IsTree t = Keeps-when _ _ _ _ λ s fits (ts, is). (
  All-set_rows _ (is_type t.id) (type_columns t) s.types (λ there a. ground arith) ts,
  All-imp _ _ s.items
      (λ i h.
        find_row-update_rows (is_type i.type_id) (is_type t.id) (type_columns t) s.types (λ a. refl)
        ∙ h)
      is,
)

create_item-IsTree : (i : CtiItem) → Keeps IsTree (Store.create_item i)
unfolding Store.create_item
create_item-IsTree i =
    Keeps-when _ _ _ _ λ s fits (ts, is). (ts, All-append _ s.items _ is (ground arith, tt))

update_item-IsTree : (i : CtiItem) → Keeps IsTree (Store.update_item i)
unfolding Store.update_item
update_item-IsTree i = Keeps-when _ _ _ _ λ s fits (ts, is).
    (ts, All-set_rows _ (is_item i.id) (item_columns i) s.items (λ there a. ground arith) is)

run-IsTree : (op : Operation) → Keeps IsTree (run op)
unfolding run Service.create_category Service.create_type Service.create_item
    Service.update_category Service.update_type Service.update_item Store.get_category
    Store.get_type
run-IsTree (create_category name at) = search (keeps_rules, create_category-IsTree) depth 40
run-IsTree (create_type id name at) = search (keeps_rules, create_type-IsTree) depth 40
run-IsTree (create_item id name at) = search (keeps_rules, create_item-IsTree) depth 40
run-IsTree (update_category c) = search (keeps_rules, update_category-IsTree) depth 40
run-IsTree (update_type t) = search (keeps_rules, update_type-IsTree) depth 40
run-IsTree (update_item i) = search (keeps_rules, update_item-IsTree) depth 40
run-IsTree (delete_category id) = delete_category-IsTree id
run-IsTree (delete_type id) = delete_type-IsTree id
run-IsTree (delete_item id) = delete_item-IsTree id

-- Whatever operations run, and whatever statements the database refuses, a classification in which
-- each type belongs to a stored category and each item to a stored type stays one.
pub run_all-IsTree :
    (ops : List Operation) (env : Env) (w : World CategoryDb)
    → IsTree w.db
    → IsTree (run_all ops env w).db
unfolding run_all
run_all-IsTree [] env w tree = tree
run_all-IsTree (op ∷ ops) env w tree =
    run_all-IsTree ops env (run op env w).1 ((run-IsTree op).at env w tree)
