-- ===== src/User/Domains.antt =====
-- Which email domains may sign up: `isEmailDomainAllowed` of
-- backend/internal/domain/user/service.go.
use open_help_desk.Base.{
  ℕ, zero, suc, ◌≡◌, ◌≢◌, ◌↔◌, refl, true, false, some, List, [], ◌∷◌, ◌++◌, inl, inr, arith,
  Option-cases, Bool-cases, ap, is_some, ◌==◌, ◌⊎◌,
}
use open_help_desk.Base.Table.{get_elem?, All, find_row}
use open_help_desk.Base.Text.{Text, text_eq, text_eq_iff}
use open_help_desk.User.Service.{Libraries, after_at, normal, is_email_domain_allowed}

-- The text has no `@`.
abbrev pub HasNoAt : Text → Type 0
HasNoAt = All (λ c. (c == 64) ≡ false)

after_at-append : (local d : Text) → HasNoAt local → after_at (local ++ 64 ∷ d) ≡ some d
unfolding after_at
after_at-append [] d h = refl
after_at-append (c ∷ s) d h = ground (arith, h.0, after_at-append s d h.1)

after_at-split :
    (s d : Text) → after_at s ≡ some d → (local : Text) × HasNoAt local × (s ≡ local ++ 64 ∷ d)
unfolding after_at
after_at-split [] d h = absurd (ground arith)
after_at-split (c ∷ s) d h = elim (Bool-cases (c == 64)) [
  | inl e ↦ ([], tt, ground arith)
  | inr e ↦
      let (local, clean, eq) = after_at-split s d (ground arith) in
      (c ∷ local, (e, clean), ap (λ r. c ∷ r) eq)
]

module _ (lib : Libraries) where
  -- An entry of the list has the domain, up to space and case.
  abbrev pub IsListed : List Text → Text → Type 0
  IsListed ds domain = (i : ℕ) × (a : Text) × (get_elem? ds i ≡ some a) × (normal lib a ≡ domain)

  IsListed-intro :
      (ds : List Text) (domain : Text)
      → IsListed ds domain
      → is_some (find_row (λ a. text_eq (normal lib a) domain) ds) ≡ true
  unfolding find_row
  IsListed-intro [] domain (i, a, h, e) = absurd (ground arith)
  IsListed-intro (d ∷ ds) domain (zero, a, h, e) =
      let same = (text_eq_iff (normal lib d) domain).1 (ground arith) in ground arith
  IsListed-intro (d ∷ ds) domain (suc i, a, h, e) =
      let rest = IsListed-intro ds domain (i, a, h, e) in ground arith

  IsListed-elim :
      (ds : List Text) (domain : Text)
      → is_some (find_row (λ a. text_eq (normal lib a) domain) ds) ≡ true
      → IsListed ds domain
  unfolding find_row
  IsListed-elim [] domain h = absurd (ground arith)
  IsListed-elim (d ∷ ds) domain h = elim (Bool-cases (text_eq (normal lib d) domain)) [
    | inl e ↦ (0, d, refl, (text_eq_iff (normal lib d) domain).0 e)
    | inr e ↦ let (i, a, at, same) = IsListed-elim ds domain (ground arith) in (suc i, a, at, same)
  ]

  -- A list without entries allows every email. Any other list allows the emails, trimmed and in
  -- lower case, whose text after the first `@` is not empty and is one of the entries, trimmed and
  -- in lower case.
  pub is_email_domain_allowed_iff :
      (email : Text) (allowed : List Text)
      → (is_email_domain_allowed lib email allowed ≡ true) ↔ (
          (allowed ≡ [])
          ⊎ ((local : Text) × (domain : Text) × HasNoAt local
              × (normal lib email ≡ local ++ 64 ∷ domain)
              × (domain ≢ [])
              × IsListed allowed domain))
  unfolding is_email_domain_allowed
  is_email_domain_allowed_iff email [] = (λ h. inl refl, λ h. refl)
  is_email_domain_allowed_iff email (d ∷ ds) = (forwards, backwards)
    where
      forwards :
          is_email_domain_allowed lib email (d ∷ ds) ≡ true
          → ((d ∷ ds) ≡ [])
            ⊎ ((local : Text) × (domain : Text) × HasNoAt local
                × (normal lib email ≡ local ++ 64 ∷ domain)
                × (domain ≢ [])
                × IsListed (d ∷ ds) domain)
      forwards h = elim (Option-cases (after_at (normal lib email))) [
        | inl e ↦ absurd (ground arith)
        | inr (domain, e) ↦
            let (local, clean, eq) = after_at-split (normal lib email) domain e in
            inr
              (local, domain, clean, eq, ground arith, IsListed-elim (d ∷ ds) domain (ground arith))
      ]

      backwards :
          ((d ∷ ds) ≡ [])
            ⊎ ((local : Text) × (domain : Text) × HasNoAt local
                × (normal lib email ≡ local ++ 64 ∷ domain)
                × (domain ≢ [])
                × IsListed (d ∷ ds) domain)
          → is_email_domain_allowed lib email (d ∷ ds) ≡ true
      backwards (inl none_listed) = absurd (ground arith)
      backwards (inr (local, domain, clean, eq, some_, listed)) =
          let split = after_at-append local domain clean in
          let member = IsListed-intro (d ∷ ds) domain listed in ground arith
