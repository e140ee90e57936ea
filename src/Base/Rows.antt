-- ===== src/Base/Rows.antt =====
-- What the statements of `Table` do to the rows that a query looks for.
use open_help_desk.Base.Tests.{Bool-cases, is_some}
use open_help_desk.Base.Table.{All, find_row, update_rows, delete_rows}
use mathlib.Core.Path.{◌≡◌, refl}
use mathlib.Core.Logic.{inl, inr}
use mathlib.Core.Bool.{Bool, true, false, ◌&&◌}
use mathlib.Core.List.{List, [], ◌∷◌, ◌++◌}
use native.Mathlib.Omega.{arith}

module _ {A : Type 0} where
  pub All-delete_rows :
      {P Q : A → Type 0} (test : A → Bool) (xs : List A)
      → ((a : A) → test a ≡ false → P a → Q a)
      → All P xs
      → All Q (delete_rows test xs)
  unfolding delete_rows
  All-delete_rows test [] keep h = tt
  All-delete_rows test (x ∷ xs) keep h =
      let rest = All-delete_rows test xs keep h.1 in
      elim (Bool-cases (test x)) [
        | inl gone ↦ rw gone rest
        | inr stays ↦ rw stays (keep x stays h.0, rest)
      ]

  pub find_row-append :
      (test : A → Bool) (front back : List A)
      → is_some (find_row test front) ≡ true
      → is_some (find_row test (front ++ back)) ≡ true
  unfolding find_row
  find_row-append test [] back h = absurd (ground arith)
  find_row-append test (x ∷ xs) back h = ground (arith, find_row-append test xs back)

  pub find_row-update_rows :
      (test select : A → Bool) (change : A → A) (xs : List A)
      → ((a : A) → test (change a) ≡ test a)
      → is_some (find_row test (update_rows select change xs)) ≡ is_some (find_row test xs)
  unfolding find_row update_rows
  find_row-update_rows test select change [] same = refl
  find_row-update_rows test select change (x ∷ xs) same =
      let ih = find_row-update_rows test select change xs same in let here = same x in ground arith

  -- A row that is found stays if no row that is found goes.
  pub find_row-delete_rows :
      (test gone : A → Bool) (xs : List A)
      → is_some (find_row (λ a. test a && gone a) xs) ≡ false
      → is_some (find_row test xs) ≡ true
      → is_some (find_row test (delete_rows gone xs)) ≡ true
  unfolding find_row delete_rows
  find_row-delete_rows test gone [] kept h = h
  find_row-delete_rows test gone (x ∷ xs) kept h =
      let ih = find_row-delete_rows test gone xs in ground arith

  pub find_row_none :
      (test : A → Bool) (xs : List A)
      → ((a : A) → test a ≡ false)
      → is_some (find_row test xs) ≡ false
  unfolding find_row
  find_row_none test [] h = refl
  find_row_none test (x ∷ xs) h = let here = h x in let ih = find_row_none test xs h in ground arith

  -- A change of the rows that a query finds, if there are any.
  pub All-set_rows :
      (P : A → Type 0) (test : A → Bool) (change : A → A) (xs : List A)
      → (is_some (find_row test xs) ≡ true → (a : A) → P (change a))
      → All P xs
      → All P (update_rows test change xs)
  unfolding find_row update_rows
  All-set_rows P test change [] fits h = tt
  All-set_rows P test change (x ∷ xs) fits h = elim (Bool-cases (test x)) [
    | inl hit ↦ rw hit (
      fits (ground arith) x,
      All-set_rows P test change xs (λ found a. fits (ground arith) a) h.1,
    )
    | inr miss ↦ rw miss (h.0, All-set_rows P test change xs (λ found a. fits (ground arith) a) h.1)
  ]
