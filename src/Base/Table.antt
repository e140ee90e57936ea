-- ===== src/Base/Table.antt =====
-- A database table as the list of its rows, and the statements of the SQL queries on it.
use open_help_desk.Base.Tests.{if◌then◌else◌}
use Prim.Native.Nat.{ℕ, zero, suc, ◌+◌}
use mathlib.Core.Path.{◌≡◌, refl}
use mathlib.Core.Bool.{Bool, true, false}
use mathlib.Core.Option.{Option, none, some}
use mathlib.Core.List.{List, [], ◌∷◌, ◌++◌, map}
use native.Mathlib.Omega.{arith}

-- Every row of a list has the property.
abbrev pub All {ℓ κ} : {A : Type ℓ} → (A → Type κ) → List A → Type κ
All P [] = Unit
All P (x ∷ xs) = P x × All P xs

module _ {ℓ} {A : Type ℓ} where
  abbrev pub length : List A → ℕ
  length [] = 0
  length (x ∷ xs) = suc (length xs)

  abbrev pub get_elem? : List A → ℕ → Option A
  get_elem? [] i = none
  get_elem? (x ∷ xs) zero = some x
  get_elem? (x ∷ xs) (suc i) = get_elem? xs i

  -- `SELECT … WHERE test`, the first row
  unfoldable pub find_row : (A → Bool) → List A → Option A
  find_row test [] = none
  find_row test (x ∷ xs) = if test x then some x else find_row test xs

  -- `SELECT … WHERE test`, all rows
  unfoldable pub select_rows : (A → Bool) → List A → List A
  select_rows test [] = []
  select_rows test (x ∷ xs) = let rest = select_rows test xs in if test x then x ∷ rest else rest

  -- `DELETE … WHERE test`
  unfoldable pub delete_rows : (A → Bool) → List A → List A
  delete_rows test [] = []
  delete_rows test (x ∷ xs) = let rest = delete_rows test xs in if test x then rest else x ∷ rest

  -- `UPDATE … SET change WHERE test`
  unfoldable pub update_rows : (A → Bool) → (A → A) → List A → List A
  update_rows test change [] = []
  update_rows test change (x ∷ xs) = (if test x then change x else x) ∷ update_rows test change xs

  -- `SELECT COUNT(*) … WHERE test`
  unfoldable pub count_rows : (A → Bool) → List A → ℕ
  count_rows test [] = 0
  count_rows test (x ∷ xs) = (if test x then 1 else 0) + count_rows test xs

module _ {ℓ} {A : Type ℓ} where
  -- What a query finds passes its test.
  pub find_row_sound :
      (test : A → Bool) (xs : List A) (a : A) → find_row test xs ≡ some a → test a ≡ true
  unfolding find_row
  find_row_sound test [] a h = cc
  find_row_sound test (x ∷ xs) a h = ground (arith, find_row_sound test xs a)

  -- An update keeps a property of rows that the change keeps.
  pub All-update_rows {κ} :
      (P : A → Type κ) (test : A → Bool) (change : A → A) (xs : List A)
      → ((a : A) → test a ≡ true → P a → P (change a))
      → All P xs
      → All P (update_rows test change xs)
  unfolding update_rows
  All-update_rows P test change [] keep h = tt
  All-update_rows P test change (x ∷ xs) keep h =
      (go (test x) (keep x), All-update_rows P test change xs keep h.1)
    where
      go : (b : Bool) → (b ≡ true → P x → P (change x)) → P (if b then change x else x)
      go true k = k refl h.0
      go false k = h.0

  pub All-append {κ} :
      (P : A → Type κ) (front back : List A) → All P front → All P back → All P (front ++ back)
  All-append P [] back h k = k
  All-append P (a ∷ front) back (p, h) k = (p, All-append P front back h k)

  pub All-imp {κ} : (P Q : A → Type κ) (xs : List A) → ((a : A) → P a → Q a) → All P xs → All Q xs
  All-imp P Q [] f h = tt
  All-imp P Q (x ∷ xs) f h = (f x h.0, All-imp P Q xs f h.1)

-- A row of a mapped table.
pub get_elem?-map {ℓ κ} :
    {A : Type ℓ} {B : Type κ} (f : A → B) (xs : List A) (i : ℕ) {a : A}
    → get_elem? xs i ≡ some a
    → get_elem? (map f xs) i ≡ some (f a)
get_elem?-map f [] i h = cc
get_elem?-map f (x ∷ xs) zero h = cc
get_elem?-map f (x ∷ xs) (suc i) h = get_elem?-map f xs i h
