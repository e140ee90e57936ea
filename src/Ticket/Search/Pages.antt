-- ===== src/Ticket/Search/Pages.antt =====
-- What a page of a search holds: the `Search…` methods of
-- backend/internal/database/ticketstore/ticketstore.go.
use open_help_desk.Base.{
  ℕ, zero, suc, ◌≤◌, ◌≡◌, refl, Bool, true, ◌&&◌, List, [], ◌∷◌, inl, inr, arith,
}
use open_help_desk.Base.Int.{ℤ, pos_part, to_int32}
use open_help_desk.Base.Order.{IsRow, IsRow-sort_by, IsRow-select_rows, sort_by}
use open_help_desk.Base.Table.{All, length, select_rows}
use open_help_desk.Base.Text.{Text}
use open_help_desk.Exec.{Env, World, ok, query, statement}
use open_help_desk.Ticket.{Ticket}
use open_help_desk.Ticket.Store.{TicketDb}
use open_help_desk.Ticket.Listing.{limited, skipped, length-limited}
use open_help_desk.Ticket.Search.{search_page, ranks_before, is_match}

All-IsRow-intro :
    (P : Ticket → Type 0) (ts : List Ticket) → ((t : Ticket) → IsRow t ts → P t) → All P ts
All-IsRow-intro P [] h = tt
All-IsRow-intro P (t ∷ ts) h = (h t (inl refl), All-IsRow-intro P ts (λ u m. h u (inr m)))

IsRow-limited : (n : ℕ) (ts : List Ticket) (t : Ticket) → IsRow t (limited n ts) → IsRow t ts
unfolding limited
IsRow-limited zero ts t m = absurd m
IsRow-limited (suc n) [] t m = m
IsRow-limited (suc n) (u ∷ ts) t (inl same) = inl same
IsRow-limited (suc n) (u ∷ ts) t (inr later) = inr (IsRow-limited n ts t later)

IsRow-skipped : (n : ℕ) (ts : List Ticket) (t : Ticket) → IsRow t (skipped n ts) → IsRow t ts
unfolding skipped
IsRow-skipped zero ts t m = m
IsRow-skipped (suc n) [] t m = m
IsRow-skipped (suc n) (u ∷ ts) t m = inr (IsRow-skipped n ts t m)

module _ (is_word : ℕ → Bool) (lower upper : ℕ → ℕ) (ilike : Text → Text → Bool)
    (matches : Text → Ticket → Bool) (rank : Text → Ticket → ℕ) where
  -- A page of a search holds tickets that pass the search's test, and at most as many as the limit,
  -- cut to 32 bits, says.
  pub search_page_ok :
      (test : Ticket → Bool) (q : Text) (limit offset : ℤ) (env : Env) (w : World TicketDb)
      (ts : List Ticket)
      → (search_page is_word lower upper ilike matches rank test q limit offset env w).0 ≡ ok ts
      → All (λ t. test t ≡ true) ts × (length ts ≤ pos_part (to_int32 limit))
  unfolding search_page query statement
  search_page_ok test q limit offset env w ts h =
      let le = ranks_before is_word lower upper ilike matches rank q in
      let hit : Ticket → Bool =
        λ t. test t && is_match is_word lower upper ilike matches rank q t in
      let chosen = select_rows hit w.db.tickets in
      let rows =
        limited (pos_part (to_int32 limit))
          (skipped (pos_part (to_int32 offset)) (sort_by le chosen)) in
      let same : rows ≡ ts = ground arith in
      rw (← same) (
        All-IsRow-intro (λ t. test t ≡ true) rows
            (λ t m.
              let sorted = IsRow-skipped _ _ t (IsRow-limited _ _ t m) in
              let (row, passed) =
                (IsRow-select_rows hit w.db.tickets t).0 ((IsRow-sort_by le chosen t).0 sorted) in
              ground arith),
        length-limited (pos_part (to_int32 limit)) _,
      )
