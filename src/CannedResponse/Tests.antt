-- ===== src/CannedResponse/Tests.antt =====
-- The theorems on reply templates at a small table.
use open_help_desk.Base.{
  ℕ, ◌≡◌, refl, ◌↔◌, ◌⊎◌, Bool, true, false, not, none, some, List, [], ◌∷◌, Uuid, Time, is_none,
}
use open_help_desk.Base.Int.{pos, negsuc, to_int32}
use open_help_desk.Base.Order.{IsRow}
use open_help_desk.Base.Table.{find_row}
use open_help_desk.Base.Text.{Text, codes, text_lt, trim_space, is_empty}
use open_help_desk.Exec.{World, calm, ok, fresh, raise_if, now, query, statement, ◌>>=◌}
use open_help_desk.CannedResponse.{CannedResponse}
use open_help_desk.CannedResponse.Store
use open_help_desk.CannedResponse.Store.{CannedDb, response_of, response_row}
use open_help_desk.CannedResponse.Service.{create, list_available}
use open_help_desk.CannedResponse.Picker.{IsAvailable, IsInOrder, list_available_ok}
use open_help_desk.CannedResponse.Creation.{create_response_ok}

abbrev clock : ℕ → Time
clock n = n

abbrev ids : ℕ → Uuid
ids n = n

abbrev name_le : Text → Text → Bool
name_le a b = not (text_lt b a)

abbrev greeting : CannedResponse
greeting = record {
  id = 70;
  name = codes "Hello";
  body = codes "Thanks";
  category_id = none;
  type_id = none;
  sort_order = pos 3;
  created_at = 0;
}

abbrev desk : World CannedDb
desk = record {
  db = record {
    responses =
        greeting
        ∷ record greeting { id = 71; category_id = some 5; sort_order = negsuc 0 }
        ∷ record greeting { id = 72; category_id = some 5; type_id = some 6 }
        ∷ [];
  };
  calls = 0;
}

list_available_ok_example :
    (crs : List CannedResponse) × ((list_available name_le 5 none (calm clock ids) desk).0 ≡ ok crs)
    × IsInOrder crs
    × ((cr : CannedResponse) → IsRow cr crs ↔ (IsRow cr desk.db.responses × IsAvailable cr 5 none))
list_available_ok_example = list_available_ok name_le 5 none clock ids desk

abbrev reset : CannedResponse
reset = record {
  id = 0;
  name = codes "Reset";
  body = codes "Go";
  category_id = some 5;
  type_id = none;
  sort_order = negsuc 0;
  created_at = 1;
}

create_response_ok_example :
    (response_of 0
        (create
          (codes " Reset")
          (codes "Go")
          (some 5)
          none
          (negsuc 0)
          (calm clock ids)
          desk).1.db.responses
      ≡ some reset)
    × (reset.name ≡ trim_space (codes " Reset"))
    × (is_empty reset.name ≡ false)
    × (reset.body ≡ trim_space (codes "Go"))
    × (is_empty reset.body ≡ false)
    × (reset.category_id ≡ some 5)
    × (reset.type_id ≡ none)
    × ((is_none {A = Uuid} (some 5) ≡ false) ⊎ (is_none {A = Uuid} none ≡ true))
    × (reset.sort_order ≡ negsuc 0)
unfolding create trim_space Store.create Store.get response_row to_int32 find_row fresh raise_if now
    query statement ◌>>=◌
create_response_ok_example =
    create_response_ok (codes " Reset") (codes "Go") (some 5) none (negsuc 0) (calm clock ids) desk
      reset refl
