-- ===== src/Category/Tests.antt =====
-- The theorem on the classification at a small table.
use open_help_desk.Base.{ℕ, ◌+◌, refl, true, [], ◌∷◌, List, Uuid, Time}
use open_help_desk.Base.Int.{pos}
use open_help_desk.Base.Table.{find_row}
use open_help_desk.Base.Text.{codes}
use open_help_desk.Exec.{World, calm}
use open_help_desk.Category.{Category, CtiType, CtiItem}
use open_help_desk.Category.Store.{CategoryDb}
use open_help_desk.Category.Operation.{
  Operation, create_type, create_item, update_type, delete_category, run_all,
}
use open_help_desk.Category.Tree.{IsTree, run_all-IsTree}

abbrev clock : ℕ → Time
clock n = n

abbrev ids : ℕ → Uuid
ids n = 100 + n

abbrev hardware : Category
hardware = record { id = 1; name = codes "Hardware"; sort_order = pos 0; active = true }

abbrev software : Category
software = record { id = 2; name = codes "Software"; sort_order = pos 1; active = true }

abbrev printer : CtiType
printer = record {
  id = 3;
  category_id = 1;
  name = codes "Printer";
  sort_order = pos 0;
  active = true;
}

abbrev paper : CtiItem
paper = record { id = 4; type_id = 3; name = codes "Paper jam"; sort_order = pos 0; active = true }

abbrev desk : World CategoryDb
desk = record {
  db = record { categories = hardware ∷ software ∷ []; types = printer ∷ []; items = paper ∷ [] };
  calls = 0;
}

-- A new type and an item of it, the type moves, and its old category goes.
abbrev history : List Operation
history =
    create_type 2 (codes "Editor") (pos 0)
    ∷ create_item 3 (codes "Toner") (pos 1)
    ∷ update_type (record printer { category_id = 2 })
    ∷ delete_category 1
    ∷ []

run_all-IsTree_example : IsTree (run_all history (calm clock ids) desk).db
unfolding find_row
run_all-IsTree_example = run_all-IsTree history (calm clock ids) desk ((refl, tt), (refl, tt))
