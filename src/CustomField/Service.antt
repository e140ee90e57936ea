-- ===== src/CustomField/Service.antt =====
-- The service of custom fields: backend/internal/domain/customfield/service.go. The methods that
-- are left out only call the store.
use open_help_desk.Base.{
  Bool, true, false, not, ◌&&◌, Option, none, some, List, [], ◌∷◌, ◌++◌, Uuid, if◌then◌else◌,
}
use open_help_desk.Base.Int.{ℤ}
use open_help_desk.Base.Text.{Text, text_eq, trim_space, is_empty}
use open_help_desk.Exec.{
  Done, Exec, pure, raise_if, fresh, name_required, invalid_field_type, options_required,
  field_deactivated, invalid_option, ◌>>=◌, ◌>>◌,
}
use open_help_desk.CustomField.{
  FieldType, other_type, FieldDef, Assignment, ScopeType, category, type, item, is_select,
}
use open_help_desk.CustomField.Store
use open_help_desk.CustomField.Store.{FieldDb}

abbrev pub is_invalid_type : FieldType → Bool
is_invalid_type (other_type t) = true
is_invalid_type _ = false

abbrev pub lacks_options : FieldType → List Text → Bool
lacks_options t [] = is_select t
lacks_options t (o ∷ os) = false

-- `CreatedAt` is left at its zero value.
unfoldable pub create_field_def : Text → FieldType → List Text → ℤ → Exec FieldDb FieldDef
unfolding trim_space
create_field_def name field_type options sort_order = do
  raise_if (is_empty (trim_space name)) name_required
  raise_if (is_invalid_type field_type) invalid_field_type
  raise_if (lacks_options field_type options) options_required
  id ← fresh
  Store.create_field_def (record {
    id = id;
    name = trim_space name;
    field_type = field_type;
    options = options;
    sort_order = sort_order;
    active = true;
    created_at = 0;
  })

unfoldable pub update_field_def : FieldDef → Exec FieldDb Done
unfolding trim_space
update_field_def d = do
  let trimmed = record d { name = trim_space d.name }
  raise_if (is_empty trimmed.name) name_required
  raise_if (is_invalid_type trimmed.field_type) invalid_field_type
  raise_if (lacks_options trimmed.field_type trimmed.options) options_required
  Store.update_field_def trimmed

unfoldable pub create_assignment :
    Uuid → ScopeType → Uuid → ℤ → Bool → Bool → Exec FieldDb Assignment
create_assignment field_def_id scope_type scope_id sort_order visible_on_new required_on_new = do
  id ← fresh
  Store.create_assignment (record {
    id = id;
    field_def_id = field_def_id;
    field_def = none;
    scope_type = scope_type;
    scope_id = scope_id;
    sort_order = sort_order;
    visible_on_new = visible_on_new;
    required_on_new = required_on_new;
  })

-- The fields of a level, if there is a node on it.
abbrev pub level_fields : ScopeType → Option Uuid → Exec FieldDb (List Assignment)
level_fields scope_type none = pure []
level_fields scope_type (some id) = Store.list_assignments scope_type id

unfoldable pub resolve_fields_for_cti :
    Uuid → Option Uuid → Option Uuid → Exec FieldDb (List Assignment)
resolve_fields_for_cti category_id type_id item_id = do
  cat_fields ← Store.list_assignments category category_id
  type_fields ← level_fields type type_id
  item_fields ← level_fields item item_id
  pure ((cat_fields ++ type_fields) ++ item_fields)

-- `slices.Contains`
unfoldable pub contains : List Text → Text → Bool
contains [] v = false
contains (o ∷ os) v = if text_eq o v then true else contains os v

unfoldable pub set_known_value : Uuid → Uuid → Text → Exec FieldDb Done
unfolding contains
set_known_value ticket_id field_def_id value = do
  d ← Store.get_field_def field_def_id
  raise_if (not d.active) field_deactivated
  raise_if (is_select d.field_type && not (contains d.options value)) invalid_option
  Store.upsert_value ticket_id field_def_id value

unfoldable pub set_value : Uuid → Uuid → Text → Exec FieldDb Done
unfolding set_known_value
set_value ticket_id field_def_id value =
    if is_empty value
    then Store.delete_value ticket_id field_def_id
    else set_known_value ticket_id field_def_id value
