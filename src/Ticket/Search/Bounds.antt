-- ===== src/Ticket/Search/Bounds.antt =====
-- The size of a text-search query: `buildSearchTSQuery` of
-- backend/internal/database/ticketstore/ticketstore.go.
use open_help_desk.Base.{
  ℕ, zero, suc, ◌+◌, ◌*◌, ◌≤◌, ◌≡◌, refl, Bool, List, [], ◌∷◌, ◌++◌, map, arith,
}
use open_help_desk.Base.Table.{All, length}
use open_help_desk.Base.Text.{Text, codes, to_lower}
use open_help_desk.Ticket.Search.{
  take, join, search_token, build_search_ts_query, max_search_tokens, max_search_token_runes,
  tokens_after,
}

length-append {ℓ} : {A : Type ℓ} (xs ys : List A) → length (xs ++ ys) ≡ length xs + length ys
length-append [] ys = omega arith
length-append (x ∷ xs) ys = let ih = length-append xs ys in omega arith

length-take {ℓ} : {A : Type ℓ} (n : ℕ) (xs : List A) → length (take n xs) ≤ n
unfolding take
length-take zero xs = omega arith
length-take (suc n) [] = omega arith
length-take (suc n) (x ∷ xs) = let ih = length-take n xs in omega arith

length-map {ℓ κ} :
    {A : Type ℓ} {B : Type κ} (f : A → B) (xs : List A) → length (map f xs) ≡ length xs
length-map f [] = omega arith
length-map f (x ∷ xs) = let ih = length-map f xs in omega arith

-- Texts of at most 66 characters, with separators of 3.
length-join :
    (separator : Text) (ts : List Text)
    → length separator ≡ 3
    → All (λ t. length t ≤ 66) ts
    → length (join separator ts) ≤ length ts * 69
unfolding join
length-join separator [] three h = omega arith
length-join separator (t ∷ []) three h = let own = h.0 in omega arith
length-join separator (t ∷ u ∷ ts) three h =
    let own = h.0 in
    let step : length (join separator (t ∷ u ∷ ts))
        ≡ length ((t ++ separator) ++ join separator (u ∷ ts)) =
      refl in
    let ih = length-join separator (u ∷ ts) three h.1 in
    let outer = length-append (t ++ separator) (join separator (u ∷ ts)) in
    let inner = length-append t separator in omega arith

module _ (is_word : ℕ → Bool) (lower : ℕ → ℕ) where
  length-search_token : (t : Text) → length (search_token is_word lower t) ≤ 66
  unfolding search_token
  length-search_token t =
      let cut = length-take max_search_token_runes (to_lower lower t) in
      let whole = length-append (take max_search_token_runes (to_lower lower t)) (codes ":*") in
      omega arith

  All-search_token :
      (ts : List Text) → All (λ t. length t ≤ 66) (map (search_token is_word lower) ts)
  All-search_token [] = tt
  All-search_token (t ∷ ts) = (length-search_token t, All-search_token ts)

  -- The query that a search hands to the database has at most 690 characters, whatever the user has
  -- typed: ten tokens of 64 characters, with what joins them.
  pub length-build_search_ts_query :
      (q : Text) → length (build_search_ts_query is_word lower q) ≤ 690
  unfolding build_search_ts_query
  length-build_search_ts_query q =
      let tokens = take max_search_tokens (tokens_after is_word lower [] q) in
      let ten = length-take max_search_tokens (tokens_after is_word lower [] q) in
      let same = length-map (search_token is_word lower) tokens in
      let joined =
        length-join (codes " & ") (map (search_token is_word lower) tokens) refl
          (All-search_token tokens) in
      omega arith
