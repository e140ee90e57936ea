-- ===== src/Base/Order.antt =====
-- Membership in a list of rows, and `ORDER BY` and `sort.Slice` as an insertion sort.
use open_help_desk.Base.Tests.{if◌then◌else◌, Bool-cases, is_some}
use open_help_desk.Base.Table.{All, find_row, select_rows, update_rows}
use mathlib.Core.Path.{◌≡◌, refl}
use mathlib.Core.Logic.{◌↔◌, ◌⊎◌, inl, inr}
use mathlib.Core.Bool.{Bool, true, false}
use mathlib.Core.Option.{some}
use mathlib.Core.List.{List, [], ◌∷◌}
use native.Mathlib.Omega.{arith}

-- The row stands in the list.
abbrev pub IsRow : {A : Type 0} → A → List A → Type 0
IsRow a [] = ⊥
IsRow a (x ∷ xs) = (a ≡ x) ⊎ IsRow a xs

module _ {ℓ} {A : Type ℓ} where
  -- `le a b` if `a` may stand in front of `b`.
  unfoldable pub insert_by : (A → A → Bool) → A → List A → List A
  insert_by le a [] = a ∷ []
  insert_by le a (x ∷ xs) = let rest = insert_by le a xs in if le a x then a ∷ x ∷ xs else x ∷ rest

  unfoldable pub sort_by : (A → A → Bool) → List A → List A
  unfolding insert_by
  sort_by le [] = []
  sort_by le (x ∷ xs) = insert_by le x (sort_by le xs)

  abbrev pub IsSorted : (A → A → Bool) → List A → Type ℓ
  IsSorted le [] = Unit
  IsSorted le (x ∷ xs) = All (λ y. le x y ≡ true) xs × IsSorted le xs

module _ {A : Type 0} where
  pub IsRow-select_rows :
      (test : A → Bool) (xs : List A) (a : A)
      → IsRow a (select_rows test xs) ↔ (IsRow a xs × (test a ≡ true))
  unfolding select_rows
  IsRow-select_rows test [] a = (λ h. absurd h, λ h. absurd h.0)
  IsRow-select_rows test (x ∷ xs) a =
      let ih = IsRow-select_rows test xs a in
      elim (Bool-cases (test x)) [
        | inl hit ↦ rw hit (
          elim [
            | inl same ↦ (inl same, rw same hit)
            | inr later ↦ (inr (ih.0 later).0, (ih.0 later).1)
          ],
          λ h. elim h.0 [ inl same ↦ inl same | inr later ↦ inr (ih.1 (later, h.1)) ],
        )
        | inr miss ↦ rw miss (
          λ h. (inr (ih.0 h).0, (ih.0 h).1),
          λ h. elim h.0 [ inl same ↦ absurd (cc) | inr later ↦ ih.1 (later, h.1) ],
        )
      ]

  IsRow-insert_by :
      (le : A → A → Bool) (x : A) (xs : List A) (a : A)
      → IsRow a (insert_by le x xs) ↔ ((a ≡ x) ⊎ IsRow a xs)
  unfolding insert_by
  IsRow-insert_by le x [] a = (λ h. h, λ h. h)
  IsRow-insert_by le x (y ∷ ys) a =
      let ih = IsRow-insert_by le x ys a in
      elim (Bool-cases (le x y)) [
        | inl before ↦ rw before (λ h. h, λ h. h)
        | inr after ↦ rw after (
          elim [
            | inl same ↦ inr (inl same)
            | inr rest ↦ elim (ih.0 rest) [ inl new ↦ inl new | inr old ↦ inr (inr old) ]
          ],
          elim [
            | inl new ↦ inr (ih.1 (inl new))
            | inr (inl same) ↦ inl same
            | inr (inr old) ↦ inr (ih.1 (inr old))
          ],
        )
      ]

  pub IsRow-sort_by :
      (le : A → A → Bool) (xs : List A) (a : A) → IsRow a (sort_by le xs) ↔ IsRow a xs
  unfolding sort_by
  IsRow-sort_by le [] a = (λ h. h, λ h. h)
  IsRow-sort_by le (x ∷ xs) a =
      let ih = IsRow-sort_by le xs a in
      let step = IsRow-insert_by le x (sort_by le xs) a in
      (
        λ h. elim (step.0 h) [ inl new ↦ inl new | inr old ↦ inr (ih.0 old) ],
        elim [ inl new ↦ step.1 (inl new) | inr old ↦ step.1 (inr (ih.1 old)) ],
      )

  pub IsRow-find_row :
      (test : A → Bool) (xs : List A)
      → (is_some (find_row test xs) ≡ true) ↔ ((a : A) × IsRow a xs × (test a ≡ true))
  unfolding find_row
  IsRow-find_row test [] = (λ h. absurd (ground arith), λ h. absurd h.1)
  IsRow-find_row test (x ∷ xs) =
      let ih = IsRow-find_row test xs in
      elim (Bool-cases (test x)) [
        | inl hit ↦ rw hit (λ h. (x, inl refl, hit), λ h. refl)
        | inr miss ↦ rw miss (
          λ h. ((ih.0 h).0, inr (ih.0 h).1, (ih.0 h).2),
          λ h. elim h.1 [ inl same ↦ absurd (cc) | inr later ↦ ih.1 (h.0, later, h.2) ],
        )
      ]

  pub All-IsRow : (P : A → Type 0) (xs : List A) (a : A) → All P xs → IsRow a xs → P a
  All-IsRow P [] a h m = absurd m
  All-IsRow P (x ∷ xs) a h (inl same) = rw same h.0
  All-IsRow P (x ∷ xs) a h (inr later) = All-IsRow P xs a h.1 later

module _ {A : Type 0} where
  -- What a query finds is a row.
  pub find_row-IsRow :
      (test : A → Bool) (xs : List A) (a : A) → find_row test xs ≡ some a → IsRow a xs
  unfolding find_row
  find_row-IsRow test [] a h = absurd cc
  find_row-IsRow test (x ∷ xs) a h = elim (Bool-cases (test x)) [
    | inl hit ↦ inl (ground arith)
    | inr miss ↦ inr (find_row-IsRow test xs a (ground arith))
  ]

  -- A row that an update hits.
  pub IsRow-update_rows :
      (test : A → Bool) (change : A → A) (xs : List A) (a : A)
      → IsRow a xs
      → test a ≡ true
      → IsRow (change a) (update_rows test change xs)
  unfolding update_rows
  IsRow-update_rows test change [] a row hit = absurd row
  IsRow-update_rows test change (x ∷ xs) a (inl same) hit = inl (ground arith)
  IsRow-update_rows test change (x ∷ xs) a (inr later) hit =
      inr (IsRow-update_rows test change xs a later hit)

-- An order for which `sort_by` sorts.
pub record IsOrder {A : Type 0} (le : A → A → Bool) : Type 0 where
  pub trans : (a b c : A) → le a b ≡ true → le b c ≡ true → le a c ≡ true
  pub total : (a b : A) → le a b ≡ false → le b a ≡ true

module _ {A : Type 0} {le : A → A → Bool} (order : IsOrder le) where
  All-insert_by :
      (P : A → Type 0) (x : A) (xs : List A) → P x → All P xs → All P (insert_by le x xs)
  unfolding insert_by
  All-insert_by P x [] p h = (p, tt)
  All-insert_by P x (y ∷ ys) p h = elim (Bool-cases (le x y)) [
    | inl before ↦ rw before (p, h)
    | inr after ↦ rw after (h.0, All-insert_by P x ys p h.1)
  ]

  All-after :
      (x y : A) (ys : List A)
      → le x y ≡ true
      → All (λ z. le y z ≡ true) ys
      → All (λ z. le x z ≡ true) ys
  All-after x y [] first h = tt
  All-after x y (z ∷ ys) first h = (order.trans x y z first h.0, All-after x y ys first h.1)

  IsSorted-insert_by : (x : A) (xs : List A) → IsSorted le xs → IsSorted le (insert_by le x xs)
  unfolding insert_by
  IsSorted-insert_by x [] h = (tt, tt)
  IsSorted-insert_by x (y ∷ ys) h = elim (Bool-cases (le x y)) [
    | inl before ↦ rw before ((before, All-after x y ys before h.0), h)
    | inr after ↦ rw after (
      All-insert_by (λ z. le y z ≡ true) x ys (order.total x y after) h.0,
      IsSorted-insert_by x ys h.1,
    )
  ]

  pub IsSorted-sort_by : (xs : List A) → IsSorted le (sort_by le xs)
  unfolding sort_by
  IsSorted-sort_by [] = tt
  IsSorted-sort_by (x ∷ xs) = IsSorted-insert_by x (sort_by le xs) (IsSorted-sort_by xs)
