-- ===== src/Group/Service.antt =====
-- The group service: backend/internal/domain/group/service.go. The methods that are left out only
-- call the store.
use open_help_desk.Base.{Bool, Option, List, Uuid}
use open_help_desk.Base.Text.{Text, trim_space, is_empty}
use open_help_desk.Exec.{Done, Exec, pure, raise_if, fresh, name_required, ◌>>=◌, ◌>>◌}
use open_help_desk.Group.{Group}
use open_help_desk.Group.Store
use open_help_desk.Group.Store.{GroupDb}

unfoldable pub create : Text → Text → Exec GroupDb Group
unfolding trim_space
create name description = do
  raise_if (is_empty (trim_space name)) name_required
  id ← fresh
  Store.create (record { id = id; name = trim_space name; description = description })
  pure (record { id = id; name = trim_space name; description = description })

-- Unlike `Create`, it stores the name as it is.
unfoldable pub update : Group → Exec GroupDb Done
unfolding trim_space
update g = do raise_if (is_empty (trim_space g.name)) name_required; Store.update g

unfoldable pub get_groups_for_ticket :
    (Text → Text → Bool) → Uuid → Option Uuid → Exec GroupDb (List Group)
unfolding Store.list_groups_in_scope
get_groups_for_ticket name_le category_id type_id =
    Store.list_groups_in_scope name_le category_id type_id
