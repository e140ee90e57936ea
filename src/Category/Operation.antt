-- ===== src/Category/Operation.antt =====
-- The operations of backend/internal/domain/category/service.go that write, as data.
use open_help_desk.Base.{List, [], ◌∷◌, Uuid}
use open_help_desk.Base.Int.{ℤ}
use open_help_desk.Base.Text.{Text}
use open_help_desk.Exec.{Done, Exec, Env, World, forget}
use open_help_desk.Category.{Category, CtiType, CtiItem}
use open_help_desk.Category.Store
use open_help_desk.Category.Store.{CategoryDb}
use open_help_desk.Category.Service

pub data Operation : Type 0 where
  create_category : Text → ℤ → Operation
  create_type create_item : Uuid → Text → ℤ → Operation
  update_category : Category → Operation
  update_type : CtiType → Operation
  update_item : CtiItem → Operation
  delete_category delete_type delete_item : Uuid → Operation

-- The deletions of the service only call the store.
unfoldable pub run : Operation → Exec CategoryDb Done
run (create_category name at) = forget (Service.create_category name at)
run (create_type id name at) = forget (Service.create_type id name at)
run (create_item id name at) = forget (Service.create_item id name at)
run (update_category c) = Service.update_category c
run (update_type t) = Service.update_type t
run (update_item i) = Service.update_item i
run (delete_category id) = Store.delete_category id
run (delete_type id) = Store.delete_type id
run (delete_item id) = Store.delete_item id

-- A failed operation does not stop the service.
unfoldable pub run_all : List Operation → Env → World CategoryDb → World CategoryDb
unfolding run
run_all [] env w = w
run_all (op ∷ ops) env w = run_all ops env (run op env w).1
