-- ===== src/Tag/Store.antt =====
-- The tables of tags: backend/internal/database/tagstore/tagstore.go, with the statements of
-- backend/queries/tags.sql. `name_le` is the order of the database's collation and `like` its
-- operator LIKE.
use open_help_desk.Base.{
  ℕ, zero, suc, Bool, ◌&&◌, Option, none, some, List, [], ◌∷◌, ◌++◌, Uuid, if◌then◌else◌, ◌==◌,
  is_none, is_some,
}
use open_help_desk.Base.Order.{sort_by}
use open_help_desk.Base.Table.{find_row, select_rows, update_rows, delete_rows}
use open_help_desk.Base.Text.{Text, text_eq}
use open_help_desk.Exec.{
  Done, Exec, ok, err, database, found, statement, query, write, now, fresh, ◌>>=◌,
}
use open_help_desk.Tag.{Tag}

-- A row of `ticket_tags`.
pub record TicketTag : Type 0 where
  pub ticket_id : Uuid
  pub tag_id : Uuid

pub record TagDb : Type 0 where
  pub tags : List Tag
  pub ticket_tags : List TicketTag

abbrev pub named : Text → List Tag → Option Tag
named name tags = find_row (λ (t : Tag). text_eq t.name name) tags

-- The id and the time are defaults of the table; the id is new, and names are unique.
unfoldable pub create : Text → Exec TagDb Tag
create name = do
  id ← fresh
  at ← now
  statement λ s.
      if is_none (named name s.tags)
      then (
        ok (record { id = id; name = name; created_at = at; deleted_at = none }),
        record s {
          tags = s.tags ++ record { id = id; name = name; created_at = at; deleted_at = none } ∷ [];
        },
      )
      else (err database, s)

unfoldable pub get_by_name : Text → Exec TagDb Tag
get_by_name name = query (λ s. found (named name s.tags))

-- `WHERE id = $1 AND deleted_at IS NULL`
unfoldable pub soft_delete : Uuid → Exec TagDb Done
soft_delete id = do
  at ← now
  write λ s. record s {
    tags =
        update_rows (λ t. (t.id == id) && is_none t.deleted_at)
          (λ t. record t { deleted_at = some at }) s.tags;
  }

unfoldable pub restore : Uuid → Exec TagDb Done
restore id = write λ s. record s {
  tags = update_rows (λ t. t.id == id) (λ t. record t { deleted_at = none }) s.tags;
}

abbrev pub is_link : Uuid → Uuid → TicketTag → Bool
is_link ticket_id tag_id l = (l.ticket_id == ticket_id) && (l.tag_id == tag_id)

-- `ON CONFLICT DO NOTHING`, and the foreign key on the tags
unfoldable pub add_to_ticket : Uuid → Uuid → Exec TagDb Done
add_to_ticket ticket_id tag_id = statement λ s.
    if is_some (find_row (is_link ticket_id tag_id) s.ticket_tags)
    then (ok tt, s)
    else if is_some (find_row (λ (t : Tag). t.id == tag_id) s.tags)
    then (
      ok tt,
      record s {
        ticket_tags = s.ticket_tags ++ record { ticket_id = ticket_id; tag_id = tag_id } ∷ [];
      },
    )
    else (err database, s)

unfoldable pub remove_from_ticket : Uuid → Uuid → Exec TagDb Done
remove_from_ticket ticket_id tag_id =
    write (λ s. record s { ticket_tags = delete_rows (is_link ticket_id tag_id) s.ticket_tags })

abbrev pub take : {A : Type 0} → ℕ → List A → List A
take zero xs = []
take (suc n) [] = []
take (suc n) (x ∷ xs) = x ∷ take n xs

module _ (name_le : Text → Text → Bool) where
  abbrev pub by_name : Tag → Tag → Bool
  by_name a b = name_le a.name b.name

  unfoldable pub list_active : Exec TagDb (List Tag)
  list_active = query (λ s. ok (sort_by by_name (select_rows (λ t. is_none t.deleted_at) s.tags)))

  unfoldable pub list_all : Exec TagDb (List Tag)
  list_all = query (λ s. ok (sort_by by_name s.tags))

  unfoldable pub search : (Text → Text → Bool) → Text → Exec TagDb (List Tag)
  search like pattern = query λ s. ok (
      take 20
        (sort_by by_name (select_rows (λ t. is_none t.deleted_at && like t.name pattern) s.tags)))

  -- `JOIN ticket_tags tt ON tt.tag_id = t.id`
  unfoldable pub list_for_ticket : Uuid → Exec TagDb (List Tag)
  list_for_ticket ticket_id = query λ s. ok (
      sort_by by_name
        (select_rows (λ t. is_some (find_row (is_link ticket_id t.id) s.ticket_tags)) s.tags))
