-- ===== src/CustomField/Tests.antt =====
-- The theorems on custom fields at a small desk.
use open_help_desk.Base.{
  ℕ, ◌≡◌, refl, ◌↔◌, ◌⊎◌, true, false, ◌&&◌, none, some, List, [], ◌∷◌, ◌++◌, Uuid, Time,
  if◌then◌else◌, ◌==◌,
}
use open_help_desk.Base.Int.{pos}
use open_help_desk.Base.Table.{find_row}
use open_help_desk.Base.Text.{codes, text_eq, is_empty}
use open_help_desk.Exec.{World, calm, ok, statement, query, now, raise_if, ◌>>=◌}
use open_help_desk.CustomField.{FieldDef, Assignment, category, type, item, line, select}
use open_help_desk.CustomField.Store
use open_help_desk.CustomField.Store.{FieldDb}
use open_help_desk.CustomField.Service.{set_value, contains, resolve_fields_for_cti}
use open_help_desk.CustomField.Values.{value_at, set_value_ok, set_value_iff, IsAccepted}
use open_help_desk.CustomField.Resolution.{IsLevel, resolve_fields_ok}

abbrev clock : ℕ → Time
clock n = n

abbrev ids : ℕ → Uuid
ids n = n

abbrev colour : FieldDef
colour = record {
  id = 1;
  name = codes "Colour";
  field_type = select;
  options = codes "red" ∷ codes "blue" ∷ [];
  sort_order = pos 0;
  active = true;
  created_at = 0;
}

abbrev at_category : Assignment
at_category = record {
  id = 11;
  field_def_id = 1;
  field_def = none;
  scope_type = category;
  scope_id = 5;
  sort_order = pos 2;
  visible_on_new = true;
  required_on_new = false;
}

abbrev desk : World FieldDb
desk = record {
  db = record {
    defs =
        colour
        ∷ record colour { id = 2; name = codes "Room"; field_type = line; options = [] }
        ∷ [];
    assignments =
        at_category
        ∷ record at_category { id = 12; field_def_id = 2; sort_order = pos 1 }
        ∷ record at_category { id = 13; field_def_id = 2; scope_type = type; scope_id = 6 }
        ∷ [];
    values = record { ticket_id = 8; field_def_id = 1; value = codes "red"; updated_at = 0 } ∷ [];
  };
  calls = 0;
}

set_value_ok_example :
    value_at 8 1 (set_value 8 1 (codes "blue") (calm clock ids) desk).1.db.values ≡ (
      if (8 == 8) && (1 == 1)
      then if is_empty (codes "blue") then none else some (codes "blue")
      else value_at 8 1 desk.db.values)
unfolding set_value Store.get_field_def Store.upsert_value contains text_eq find_row statement query
    now raise_if ◌>>=◌
set_value_ok_example = set_value_ok 8 1 (codes "blue") (calm clock ids) desk 8 1 refl

set_value_iff_example :
    ((set_value 8 1 (codes "green") (calm clock ids) desk).0 ≡ ok tt)
    ↔ ((is_empty (codes "green") ≡ true) ⊎ IsAccepted 1 (codes "green") desk.db)
set_value_iff_example = set_value_iff 8 1 (codes "green") clock ids desk

resolve_fields_ok_example :
    (cs ts is : List Assignment) × ((resolve_fields_for_cti 5 (some 6) none (calm clock ids) desk).0
      ≡ ok ((cs ++ ts) ++ is))
    × IsLevel category (some 5) desk.db cs
    × IsLevel type (some 6) desk.db ts
    × IsLevel item none desk.db is
resolve_fields_ok_example = resolve_fields_ok clock ids 5 (some 6) none desk
