-- ===== src/CannedResponse/Service.antt =====
-- The service of reply templates: backend/internal/domain/cannedresponse/service.go. `Delete` and
-- `Get` only call the store. `sort.Slice` is an insertion sort; the order of equal elements, which
-- Go leaves open, is that of the list.
use open_help_desk.Base.{◌^◌, ◌-◌, Bool, not, ◌||◌, ◌&&◌, Option, List, Uuid, is_none, is_some}
use open_help_desk.Base.Int.{ℤ, pos, negsuc, ltb_ℤ, leb_ℤ}
use open_help_desk.Base.Order.{sort_by}
use open_help_desk.Base.Table.{select_rows}
use open_help_desk.Base.Text.{Text, text_lt, trim_space, is_empty}
use open_help_desk.Exec.{Exec, pure, raise_if, fresh, validation, ◌>>=◌, ◌>>◌}
use open_help_desk.CannedResponse.{CannedResponse, available}
use open_help_desk.CannedResponse.Store
use open_help_desk.CannedResponse.Store.{CannedDb}

-- A type without a category
abbrev pub is_scope_refused : Option Uuid → Option Uuid → Bool
is_scope_refused category_id type_id = is_some type_id && is_none category_id

-- Below `math.MinInt32` or above `math.MaxInt32`
abbrev pub is_out_of_range : ℤ → Bool
is_out_of_range n = ltb_ℤ n (negsuc (2 ^ 31 - 1)) || ltb_ℤ (pos (2 ^ 31 - 1)) n

-- The four checks, in their order; each has the same error.
abbrev pub is_refused : CannedResponse → Bool
is_refused cr =
    is_empty cr.name
    || is_empty cr.body
    || is_scope_refused cr.category_id cr.type_id
    || is_out_of_range cr.sort_order

unfoldable pub create : Text → Text → Option Uuid → Option Uuid → ℤ → Exec CannedDb CannedResponse
unfolding trim_space
create name body category_id type_id sort_order = do
  let draft : CannedResponse = record {
    id = 0;
    name = trim_space name;
    body = trim_space body;
    category_id = category_id;
    type_id = type_id;
    sort_order = sort_order;
    created_at = 0;
  }
  raise_if (is_refused draft) validation
  id ← fresh
  Store.create (record draft { id = id })
  Store.get id

unfoldable pub update : CannedResponse → Exec CannedDb CannedResponse
unfolding trim_space
update cr = do
  let trimmed = record cr { name = trim_space cr.name; body = trim_space cr.body }
  raise_if (is_refused trimmed) validation
  Store.update trimmed
  Store.get cr.id

-- `sortResponses` puts `a` before `b`, or leaves their order open.
unfoldable pub response_le : CannedResponse → CannedResponse → Bool
response_le a b =
    ltb_ℤ a.sort_order b.sort_order
    || (leb_ℤ a.sort_order b.sort_order && not (text_lt b.name a.name))

module _ (name_le : Text → Text → Bool) where
  unfoldable pub list : Exec CannedDb (List CannedResponse)
  unfolding response_le
  list = do all ← Store.list name_le; pure (sort_by response_le all)

  unfoldable pub list_available : Uuid → Option Uuid → Exec CannedDb (List CannedResponse)
  unfolding response_le available
  list_available category_id type_id = do
    all ← Store.list name_le
    pure (sort_by response_le (select_rows (λ cr. available cr category_id type_id) all))
