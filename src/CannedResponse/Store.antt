-- ===== src/CannedResponse/Store.antt =====
-- The table of reply templates: backend/internal/database/cannedresponsestore/cannedresponsestore.go,
-- with the statements of backend/queries/canned_responses.sql. `name_le` is the order of the
-- database's collation.
use open_help_desk.Base.{
  Bool, ◌||◌, ◌&&◌, Option, List, [], ◌∷◌, ◌++◌, Uuid, Time, if◌then◌else◌, ◌==◌, is_none,
}
use open_help_desk.Base.Int.{to_int32, ltb_ℤ, leb_ℤ}
use open_help_desk.Base.Order.{sort_by}
use open_help_desk.Base.Table.{find_row, update_rows, delete_rows}
use open_help_desk.Base.Text.{Text}
use open_help_desk.Exec.{Done, Exec, ok, err, database, found, statement, query, write, now, ◌>>=◌}
use open_help_desk.CannedResponse.{CannedResponse}

pub record CannedDb : Type 0 where
  pub responses : List CannedResponse

abbrev pub response_of : Uuid → List CannedResponse → Option CannedResponse
response_of id crs = find_row (λ (cr : CannedResponse). cr.id == id) crs

-- The sort order is an INTEGER, and `created_at` is NOW().
unfoldable pub response_row : CannedResponse → Time → CannedResponse
response_row cr at = record cr { sort_order = to_int32 cr.sort_order; created_at = at }

unfoldable pub create : CannedResponse → Exec CannedDb Done
unfolding response_row
create cr = do
  at ← now
  statement λ s.
      if is_none (response_of cr.id s.responses)
      then (ok tt, record s { responses = s.responses ++ response_row cr at ∷ [] })
      else (err database, s)

unfoldable pub get : Uuid → Exec CannedDb CannedResponse
get id = query (λ s. found (response_of id s.responses))

unfoldable pub response_columns : CannedResponse → CannedResponse → CannedResponse
response_columns cr old = record old {
  name = cr.name;
  body = cr.body;
  category_id = cr.category_id;
  type_id = cr.type_id;
  sort_order = to_int32 cr.sort_order;
}

unfoldable pub update : CannedResponse → Exec CannedDb Done
unfolding response_columns
update cr =
    write λ s. record s {
      responses = update_rows (λ q. q.id == cr.id) (response_columns cr) s.responses;
    }

unfoldable pub delete : Uuid → Exec CannedDb Done
delete id = write (λ s. record s { responses = delete_rows (λ q. q.id == id) s.responses })

module _ (name_le : Text → Text → Bool) where
  -- `ORDER BY sort_order, name`
  abbrev pub row_le : CannedResponse → CannedResponse → Bool
  row_le a b =
      ltb_ℤ a.sort_order b.sort_order || (leb_ℤ a.sort_order b.sort_order && name_le a.name b.name)

  unfoldable pub list : Exec CannedDb (List CannedResponse)
  list = query (λ s. ok (sort_by row_le s.responses))
