-- ===== src/CannedResponse/Picker.antt =====
-- What the picker of the reply composer shows: `Available` of
-- backend/internal/domain/cannedresponse/service.go.
use open_help_desk.Base.{
  ℕ, ◌≡◌, refl, ◌↔◌, inl, inr, ◌⊎◌, Bool, true, false, Option, none, some, List, [], ◌∷◌, Uuid,
  Time, arith, Bool-cases, Option-cases,
}
use open_help_desk.Base.Int.{ℤ, pos, negsuc, ltb_ℤ, leb_ℤ}
use open_help_desk.Base.Order.{
  IsRow, IsRow-sort_by, IsRow-select_rows, sort_by, IsSorted, IsOrder, IsSorted-sort_by,
}
use open_help_desk.Base.Table.{All, All-imp, select_rows}
use open_help_desk.Base.Text.{Text, text_lt}
use open_help_desk.Exec.{World, calm, ok, pure, query, statement, ◌>>=◌}
use open_help_desk.CannedResponse.{CannedResponse, available}
use open_help_desk.CannedResponse.Store
use open_help_desk.CannedResponse.Store.{CannedDb, row_le}
use open_help_desk.CannedResponse.Service.{response_le, list_available}

text_lt_asym : (s t : Text) → text_lt s t ≡ true → text_lt t s ≡ false
unfolding text_lt
text_lt_asym [] [] h = ground arith
text_lt_asym [] (b ∷ t) h = ground arith
text_lt_asym (a ∷ s) [] h = ground arith
text_lt_asym (a ∷ s) (b ∷ t) h = let ih = text_lt_asym s t in ground arith

text_le_trans : (s t u : Text) → text_lt t s ≡ false → text_lt u t ≡ false → text_lt u s ≡ false
unfolding text_lt
text_le_trans [] t u h k = refl
text_le_trans (a ∷ s) [] u h k = ground arith
text_le_trans (a ∷ s) (b ∷ t) [] h k = ground arith
text_le_trans (a ∷ s) (b ∷ t) (c ∷ u) h k = let ih = text_le_trans s t u in ground arith

IsOrder-response_le : IsOrder response_le
unfolding response_le
IsOrder-response_le = record {
  trans = λ a b c h k.
      let names = text_le_trans a.name b.name c.name in
      elim (Bool-cases (text_lt b.name a.name)) [
        | inl ab ↦ elim (Bool-cases (text_lt c.name b.name)) [
          | inl bc ↦ ground arith
          | inr bc ↦ ground arith
        ]
        | inr ab ↦ elim (Bool-cases (text_lt c.name b.name)) [
          | inl bc ↦ ground arith
          | inr bc ↦ ground arith
        ]
      ];
  total = λ a b h.
      let names = text_lt_asym b.name a.name in
      elim (Bool-cases (text_lt b.name a.name)) [ inl ba ↦ ground arith | inr ba ↦ ground arith ];
}

-- For all tickets, for the whole category, or for the category and the type.
abbrev pub IsAvailable : CannedResponse → Uuid → Option Uuid → Type 0
IsAvailable cr category_id type_id =
    (cr.category_id ≡ none)
    ⊎ ((cr.category_id ≡ some category_id)
        × ((cr.type_id ≡ none) ⊎ ((own : Uuid) × (cr.type_id ≡ some own) × (type_id ≡ some own))))

available-IsAvailable :
    (cr : CannedResponse) (category_id : Uuid) (type_id : Option Uuid)
    → (available cr category_id type_id ≡ true) ↔ IsAvailable cr category_id type_id
unfolding available
available-IsAvailable cr category_id type_id = elim (Option-cases cr.category_id) [
  | inl global ↦ (λ h. inl global, λ h. ground arith)
  | inr (own, there) ↦ elim (Option-cases cr.type_id) [
    | inl whole ↦ (
      λ h. inr (ground arith, inl whole),
      elim [ inl no_category ↦ absurd cc | inr (same, scope) ↦ ground arith ],
    )
    | inr (kind, of_kind) ↦ elim (Option-cases type_id) [
      | inl untyped ↦ (
        λ h. absurd (ground arith),
        elim [
          | inl no_category ↦ absurd cc
          | inr (same, inl whole) ↦ absurd cc
          | inr (same, inr (k, e, f)) ↦ absurd cc
        ],
      )
      | inr (other, typed) ↦ (
        λ h. inr (ground arith, inr (kind, of_kind, ground arith)),
        elim [
          | inl no_category ↦ absurd cc
          | inr (same, inl whole) ↦ absurd cc
          | inr (same, inr (k, e, f)) ↦ ground arith
        ],
      )
    ]
  ]
]

-- A smaller sort order, or the same one and a name that is not greater
abbrev pub IsBefore : CannedResponse → CannedResponse → Type 0
IsBefore a b =
    (ltb_ℤ a.sort_order b.sort_order ≡ true)
    ⊎ ((a.sort_order ≡ b.sort_order) × (text_lt b.name a.name ≡ false))

-- Each row stands before all that follow it.
abbrev pub IsInOrder : List CannedResponse → Type 0
IsInOrder [] = Unit
IsInOrder (cr ∷ crs) = All (IsBefore cr) crs × IsInOrder crs

leb_ℤ_antisym : (a b : ℤ) → leb_ℤ a b ≡ true → ltb_ℤ a b ≡ false → a ≡ b
leb_ℤ_antisym (pos m) (pos n) le lt = ground arith
leb_ℤ_antisym (pos m) (negsuc n) le lt = absurd (ground arith)
leb_ℤ_antisym (negsuc m) (pos n) le lt = absurd (ground arith)
leb_ℤ_antisym (negsuc m) (negsuc n) le lt = ground arith

response_le-IsBefore : (a b : CannedResponse) → response_le a b ≡ true → IsBefore a b
unfolding response_le
response_le-IsBefore a b h = elim (Bool-cases (ltb_ℤ a.sort_order b.sort_order)) [
  | inl less ↦ inl less
  | inr rest ↦
      let le : leb_ℤ a.sort_order b.sort_order ≡ true = ground arith in
      inr (leb_ℤ_antisym a.sort_order b.sort_order le rest, ground arith)
]

IsSorted-IsInOrder : (crs : List CannedResponse) → IsSorted response_le crs → IsInOrder crs
IsSorted-IsInOrder [] h = tt
IsSorted-IsInOrder (cr ∷ crs) h =
    (All-imp _ _ crs (response_le-IsBefore cr) h.0, IsSorted-IsInOrder crs h.1)

module _ (name_le : Text → Text → Bool) (category_id : Uuid) (type_id : Option Uuid) where
  -- If the database refuses nothing, `Available` returns the stored responses that hold for all
  -- tickets, for the whole category, or for the category and the type together, and no others; and
  -- each one stands before those with a greater sort order, or with the same one and a greater name.
  pub list_available_ok :
      (now_at : ℕ → Time) (uuid_at : ℕ → Uuid) (w : World CannedDb)
      → (crs : List CannedResponse) × ((list_available name_le category_id type_id
            (calm now_at uuid_at)
            w).0
          ≡ ok crs)
        × IsInOrder crs
        × ((cr : CannedResponse)
            → IsRow cr crs ↔ (IsRow cr w.db.responses × IsAvailable cr category_id type_id))
  unfolding list_available Store.list query statement pure ◌>>=◌
  list_available_ok now_at uuid_at w =
      let test : CannedResponse → Bool = λ cr. available cr category_id type_id in
      let stored = sort_by (row_le name_le) w.db.responses in
      (
        sort_by response_le (select_rows test stored),
        refl,
        IsSorted-IsInOrder _ (IsSorted-sort_by IsOrder-response_le (select_rows test stored)),
        λ cr.
            let (fits, does_fit) = available-IsAvailable cr category_id type_id in
            let sorted = IsRow-sort_by response_le (select_rows test stored) cr in
            let chosen = IsRow-select_rows test stored cr in
            let listed = IsRow-sort_by (row_le name_le) w.db.responses cr in
            (
              λ h. let (row, hit) = chosen.0 (sorted.0 h) in (listed.0 row, fits hit),
              λ (row, hit). sorted.1 (chosen.1 (listed.1 row, does_fit hit)),
            ),
      )
