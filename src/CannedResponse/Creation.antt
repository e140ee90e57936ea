-- ===== src/CannedResponse/Creation.antt =====
-- What `Create` of backend/internal/domain/cannedresponse/service.go stores.
use open_help_desk.Base.{
  suc, ◌≡◌, refl, ◌⊎◌, inl, inr, true, false, Option, some, List, [], ◌∷◌, ◌++◌, Uuid, arith,
  Bool-cases, Option-cases, ◌==◌, is_none,
}
use open_help_desk.Base.Int.{ℤ, pos, negsuc, to_int32}
use open_help_desk.Base.Table.{find_row}
use open_help_desk.Base.Text.{Text, trim_space, is_empty}
use open_help_desk.Exec.{World, Env, ok, fresh, raise_if, now, query, statement, ◌>>=◌}
use open_help_desk.CannedResponse.{CannedResponse}
use open_help_desk.CannedResponse.Store
use open_help_desk.CannedResponse.Store.{CannedDb, response_of, response_row}
use open_help_desk.CannedResponse.Service.{create, is_out_of_range}

to_int32_kept : (n : ℤ) → is_out_of_range n ≡ false → to_int32 n ≡ n
unfolding to_int32
to_int32_kept (pos n) h = ground arith
to_int32_kept (negsuc n) h = ground arith

response_of-append :
    (id : Uuid) (crs : List CannedResponse) (cr : CannedResponse)
    → is_none (response_of id crs) ≡ true
    → cr.id ≡ id
    → response_of id (crs ++ cr ∷ []) ≡ some cr
unfolding find_row
response_of-append id [] cr h same = ground arith
response_of-append id (q ∷ crs) cr h same =
    let ih = response_of-append id crs cr in
    elim (Bool-cases (q.id == id)) [ inl hit ↦ ground arith | inr miss ↦ ground arith ]

-- When `Create` succeeds, it returns the stored row, which has the trimmed name and body, neither of
-- them empty, the scope as it was given, a category if it has a type, and the sort order that was
-- given, although its column has 32 bits.
pub create_response_ok :
    (name body : Text) (category_id type_id : Option Uuid) (sort_order : ℤ) (env : Env)
    (w : World CannedDb) (cr : CannedResponse)
    → (create name body category_id type_id sort_order env w).0 ≡ ok cr
    → (response_of cr.id (create name body category_id type_id sort_order env w).1.db.responses
        ≡ some cr)
      × (cr.name ≡ trim_space name)
      × (is_empty cr.name ≡ false)
      × (cr.body ≡ trim_space body)
      × (is_empty cr.body ≡ false)
      × (cr.category_id ≡ category_id)
      × (cr.type_id ≡ type_id)
      × ((is_none category_id ≡ false) ⊎ (is_none type_id ≡ true))
      × (cr.sort_order ≡ sort_order)
unfolding create trim_space Store.create Store.get response_row fresh raise_if now query statement
    ◌>>=◌
create_response_ok name body category_id type_id sort_order env w cr h =
    let c = w.calls in
    let row : CannedResponse = record {
      id = env.uuid_at c;
      name = trim_space name;
      body = trim_space body;
      category_id = category_id;
      type_id = type_id;
      sort_order = to_int32 sort_order;
      created_at = env.now_at (suc c);
    } in
    let stored = response_of-append (env.uuid_at c) w.db.responses row in
    let unnamed = Bool-cases (is_empty (trim_space name)) in
    let empty = Bool-cases (is_empty (trim_space body)) in
    let category = Option-cases category_id in
    let type = Option-cases type_id in
    let refused = Bool-cases (env.fails_at (suc (suc c))) in
    let unread = Bool-cases (env.fails_at (suc (suc (suc c)))) in
    elim (Bool-cases (is_out_of_range sort_order)) [
      | inl wide ↦ ground arith
      | inr fits ↦
          let kept = to_int32_kept sort_order fits in
          elim (Bool-cases (is_none (response_of (env.uuid_at c) w.db.responses))) [
            | inl free ↦ let there = stored free refl in ground arith
            | inr taken ↦ ground arith
          ]
    ]
