-- ===== src/Tag/Service.antt =====
-- The service of tags: backend/internal/domain/tag/service.go. `lower` is the table
-- `unicode.ToLower`. The methods that are left out only call the store.
use open_help_desk.Base.{ℕ, Bool, Option, none, some, List, ◌++◌, Uuid, if◌then◌else◌, is_some}
use open_help_desk.Base.Text.{Text, codes, trim_space, to_lower, is_empty}
use open_help_desk.Exec.{Exec, pure, raise, raise_if, try, name_required, tag_deleted, ◌>>=◌, ◌>>◌}
use open_help_desk.Tag.{Tag}
use open_help_desk.Tag.Store
use open_help_desk.Tag.Store.{TagDb}

module _ (lower : ℕ → ℕ) where
  -- `strings.ToLower(strings.TrimSpace(name))`
  unfoldable pub normal : Text → Text
  unfolding trim_space to_lower
  normal name = to_lower lower (trim_space name)

  unfoldable pub search : (Text → Text → Bool) → (Text → Text → Bool) → Text → Exec TagDb (List Tag)
  unfolding normal
  search name_le like prefix =
      if is_empty (normal prefix)
      then Store.list_active name_le
      else Store.search name_le like (normal prefix ++ codes "%")

  -- Any error of the lookup, a missing row or another one, leads to the insertion.
  abbrev pub resolved : Text → Option Tag → Exec TagDb Tag
  resolved name none = Store.create name
  resolved name (some t) = if is_some t.deleted_at then raise tag_deleted else pure t

  unfoldable pub resolve : Text → Exec TagDb Tag
  unfolding normal
  resolve raw_name = do
    raise_if (is_empty (normal raw_name)) name_required
    existing ← try (Store.get_by_name (normal raw_name))
    resolved (normal raw_name) existing

  unfoldable pub add_to_ticket : Uuid → Text → Exec TagDb Tag
  unfolding resolve
  add_to_ticket ticket_id raw_name = do
    t ← resolve raw_name
    Store.add_to_ticket ticket_id t.id
    pure t
