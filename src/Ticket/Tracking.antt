-- ===== src/Ticket/Tracking.antt =====
-- Tracking numbers: `GenerateTrackingNumber` of backend/internal/domain/ticket/ticket.go, and that
-- a number determines the year and the sequence value it was made of.
use open_help_desk.Base.{
  ℕ, zero, suc, ◌+◌, ◌-◌, ◌*◌, ◌/◌, ◌%◌, ◌<◌, ◌≤◌, ◌≡◌, refl, ap, sym, ◌∙◌, inl, inr, [], ◌∷◌, ◌++◌,
  arith, if◌then◌else◌, ltb, Bool-cases,
}
use open_help_desk.Base.Table.{length, All}
use open_help_desk.Base.Text.{Text, codes}

-- `%d` in front of what is already written: the last digit first. The fuel exceeds the number.
unfoldable pub digits_onto : ℕ → ℕ → Text → Text
digits_onto zero n text = text
digits_onto (suc fuel) n text =
    let more = digits_onto fuel (n / 10) ((48 + n % 10) ∷ text) in
    if ltb n 10 then (48 + n) ∷ text else more

unfoldable pub decimal : ℕ → Text
unfolding digits_onto
decimal n = digits_onto (suc n) n []

unfoldable pub zeros : ℕ → Text
zeros zero = []
zeros (suc n) = 48 ∷ zeros n

-- `%06d`
unfoldable pub padded : ℕ → Text
unfolding zeros decimal
padded n = zeros (6 - length (decimal n)) ++ decimal n

-- `fmt.Sprintf("OHD-%d-%06d", year, seq)`
unfoldable pub generate_tracking_number : ℕ → ℕ → Text
unfolding decimal padded
generate_tracking_number year seq = codes "OHD-" ++ (decimal year ++ b'-' ∷ padded seq)

-- The number that a text of digits stands for, after `n`.
reading : ℕ → Text → ℕ
reading n [] = n
reading n (c ∷ s) = reading (n * 10 + (c - 48)) s

reading-digits_onto :
    (fuel n : ℕ) (text : Text) → n < fuel → reading 0 (digits_onto fuel n text) ≡ reading n text
unfolding reading digits_onto
reading-digits_onto zero n text h = elim h [ ]
reading-digits_onto (suc fuel) n text h = elim (Bool-cases (ltb n 10)) [
  | inl small ↦ rw small (ap (λ (k : ℕ). reading k text) (omega arith))
  | inr large ↦ rw large (
      reading-digits_onto fuel (n / 10) ((48 + n % 10) ∷ text) (ground arith)
      ∙ ap (λ (k : ℕ). reading k text) (omega arith))
]

reading-decimal : (n : ℕ) → reading 0 (decimal n) ≡ n
unfolding decimal reading
reading-decimal n = reading-digits_onto (suc n) n [] (omega arith)

reading-zeros : (k : ℕ) (s : Text) → reading 0 (zeros k ++ s) ≡ reading 0 s
unfolding reading zeros
reading-zeros zero s = refl
reading-zeros (suc k) s = reading-zeros k s

reading-padded : (n : ℕ) → reading 0 (padded n) ≡ n
unfolding padded
reading-padded n = reading-zeros (6 - length (decimal n)) (decimal n) ∙ reading-decimal n

abbrev AreDigits : Text → Type 0
AreDigits = All (λ c. 48 ≤ c)

AreDigits-digits_onto :
    (fuel n : ℕ) (text : Text) → AreDigits text → AreDigits (digits_onto fuel n text)
unfolding digits_onto
AreDigits-digits_onto zero n text h = h
AreDigits-digits_onto (suc fuel) n text h = elim (Bool-cases (ltb n 10)) [
  | inl small ↦ rw small (omega arith, h)
  | inr large ↦
      rw large (AreDigits-digits_onto fuel (n / 10) ((48 + n % 10) ∷ text) (omega arith, h))
]

AreDigits-decimal : (n : ℕ) → AreDigits (decimal n)
unfolding decimal
AreDigits-decimal n = AreDigits-digits_onto (suc n) n [] tt

-- A text of digits ends at the first dash.
split_at_dash :
    (s t a b : Text) → AreDigits s → AreDigits t → s ++ b'-' ∷ a ≡ t ++ b'-' ∷ b → (s ≡ t) × (a ≡ b)
split_at_dash [] [] a b hs ht e = ground arith
split_at_dash [] (d ∷ t) a b hs ht e = ground arith
split_at_dash (c ∷ s) [] a b hs ht e = ground arith
split_at_dash (c ∷ s) (d ∷ t) a b hs ht e = ground (arith, split_at_dash s t a b hs.1 ht.1)

prefix_cancel : (s t : Text) → codes "OHD-" ++ s ≡ codes "OHD-" ++ t → s ≡ t
prefix_cancel s t e = ground arith

-- Two tracking numbers that are equal were made of the same year and the same sequence value.
pub generate_tracking_number_injective :
    (year seq year' seq' : ℕ)
    → generate_tracking_number year seq ≡ generate_tracking_number year' seq'
    → (year ≡ year') × (seq ≡ seq')
unfolding generate_tracking_number
generate_tracking_number_injective y s y' s' e =
    let parts =
      split_at_dash (decimal y) (decimal y') (padded s) (padded s') (AreDigits-decimal y)
        (AreDigits-decimal y')
        (prefix_cancel (decimal y ++ b'-' ∷ padded s) (decimal y' ++ b'-' ∷ padded s') e) in
    (
      sym (reading-decimal y) ∙ ap (reading 0) parts.0 ∙ reading-decimal y',
      sym (reading-padded s) ∙ ap (reading 0) parts.1 ∙ reading-padded s',
    )
