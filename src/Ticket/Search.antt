-- ===== src/Ticket/Search.antt =====
-- The searches of tickets: backend/internal/database/ticketstore/ticketstore.go, with the
-- statements of backend/queries/tickets.sql. What the languages' tables and the database decide
-- are parameters: `is_word` is the class [\p{L}\p{N}], `lower` and `upper` are the tables of
-- unicode, `ilike` is ILIKE, `matches` is the match of a ticket's search vector with a query, and
-- `rank` is ts_rank, whose values only count by their order.
pub mod Bounds
pub mod Pages
use open_help_desk.Base.{
  ℕ, zero, suc, Bool, true, false, not, ◌&&◌, ◌||◌, Option, none, some, List, [], ◌∷◌, ◌++◌, Uuid,
  Time, ltb, leb, if◌then◌else◌, ◌==◌, is_none, map,
}
use open_help_desk.Base.Int.{ℤ, pos, pos_part, to_int32, ltb_ℤ}
use open_help_desk.Base.Order.{sort_by}
use open_help_desk.Base.Table.{length, select_rows}
use open_help_desk.Base.Text.{Text, codes, trim_space, to_lower, is_empty}
use open_help_desk.Exec.{Exec, ok, err, database, query}
use open_help_desk.Ticket.{Ticket}
use open_help_desk.Ticket.Store.{TicketDb, is_resolved_before}
use open_help_desk.Ticket.Listing.{limited, skipped, is_uuid}

abbrev pub max_search_tokens : ℕ
max_search_tokens = 10

abbrev pub max_search_token_runes : ℕ
max_search_token_runes = 64

-- The first n elements
unfoldable pub take {ℓ} : {A : Type ℓ} → ℕ → List A → List A
take zero xs = []
take (suc n) [] = []
take (suc n) (x ∷ xs) = x ∷ take n xs

abbrev pub has_dash : Text → Bool
has_dash [] = false
has_dash (c ∷ s) = (c == 45) || has_dash s

-- It starts with a letter of ASCII.
abbrev pub starts_with_capital : Text → Bool
starts_with_capital [] = false
starts_with_capital (c ∷ s) = leb 65 c && leb c 90

-- A word that has ended is a token, unless it is empty.
abbrev pub ended : Text → List Text → List Text
ended [] tokens = tokens
ended (c ∷ word) tokens = (c ∷ word) ∷ tokens

unfoldable pub join : Text → List Text → Text
join separator [] = []
join separator (t ∷ []) = t
join separator (t ∷ u ∷ ts) = t ++ separator ++ join separator (u ∷ ts)

module _ (upper : ℕ → ℕ) where
  unfoldable pub search_pattern : Text → Text
  unfolding trim_space
  search_pattern q =
      let tn = map upper (trim_space q) in
      if starts_with_capital tn && has_dash tn then tn ++ codes "%" else codes "%" ++ q ++ codes "%"

module _ (is_word : ℕ → Bool) (lower : ℕ → ℕ) where
  -- The longest runs of the class; the word is the part of the current run that has been read.
  unfoldable pub tokens_after : Text → Text → List Text
  tokens_after word [] = ended word []
  tokens_after word (c ∷ s) =
      let run = tokens_after (word ++ c ∷ []) s in
      let rest = tokens_after [] s in if is_word c then run else ended word rest

  -- A token of the query: lower case, cut, and a prefix match
  unfoldable pub search_token : Text → Text
  unfolding to_lower take
  search_token t = take max_search_token_runes (to_lower lower t) ++ codes ":*"

  unfoldable pub build_search_ts_query : Text → Text
  unfolding tokens_after search_token join take
  build_search_ts_query q =
      join (codes " & ") (map search_token (take max_search_tokens (tokens_after [] q)))

module _ (is_word : ℕ → Bool) (lower upper : ℕ → ℕ) (ilike : Text → Text → Bool)
    (matches : Text → Ticket → Bool) (rank : Text → Ticket → ℕ) where
  abbrev pub is_match : Text → Ticket → Bool
  is_match q t =
      ilike t.tracking_number (search_pattern upper q)
      || (not (is_empty (build_search_ts_query is_word lower q))
          && matches (build_search_ts_query is_word lower q) t)

  -- The rank, or 0 for an empty query
  abbrev pub rank_of : Text → Ticket → ℕ
  rank_of q t =
      if is_empty (build_search_ts_query is_word lower q)
      then 0
      else rank (build_search_ts_query is_word lower q) t

  -- `ORDER BY ts_rank(…) DESC, created_at DESC`
  abbrev pub ranks_before : Text → Ticket → Ticket → Bool
  ranks_before q a b =
      ltb (rank_of q b) (rank_of q a)
      || ((rank_of q a == rank_of q b) && leb b.created_at a.created_at)

  -- The numbers are cut to 32 bits and must not be negative.
  unfoldable pub search_page : (Ticket → Bool) → Text → ℤ → ℤ → Exec TicketDb (List Ticket)
  unfolding search_pattern build_search_ts_query
  search_page test q limit offset = query λ s.
      if ltb_ℤ (to_int32 limit) (pos 0)
      then err database
      else if ltb_ℤ (to_int32 offset) (pos 0)
      then err database
      else ok (
          limited (pos_part (to_int32 limit)) (
            skipped (pos_part (to_int32 offset))
              (sort_by (ranks_before q) (select_rows (λ t. test t && is_match q t) s.tickets))))

  unfoldable pub search_by_reporter : Uuid → Text → ℤ → ℤ → Exec TicketDb (List Ticket)
  unfolding search_page
  search_by_reporter id = search_page (λ t. is_uuid id t.reporter_user_id)

  unfoldable pub search_by_assignee_user : Uuid → Text → ℤ → ℤ → Exec TicketDb (List Ticket)
  unfolding search_page
  search_by_assignee_user id = search_page (λ t. is_uuid id t.assignee_user_id)

  unfoldable pub search_by_assignee_group : Uuid → Text → ℤ → ℤ → Exec TicketDb (List Ticket)
  unfolding search_page
  search_by_assignee_group id = search_page (λ t. is_uuid id t.assignee_group_id)

  unfoldable pub search_all : Text → ℤ → ℤ → Exec TicketDb (List Ticket)
  unfolding search_page
  search_all = search_page (λ t. true)

  unfoldable pub search_unassigned : Text → ℤ → ℤ → Exec TicketDb (List Ticket)
  unfolding search_page
  search_unassigned = search_page (λ t. is_none t.assignee_user_id && is_none t.assignee_group_id)

-- `ORDER BY resolved_at ASC`; only rows with a time are compared.
abbrev pub resolved_le : Ticket → Ticket → Bool
resolved_le a b = elim a.resolved_at [
  | none ↦ false
  | some s ↦ elim b.resolved_at [ none ↦ true | some t ↦ leb s t ]
]

unfoldable pub list_resolved_before : Time → ℤ → Exec TicketDb (List Ticket)
unfolding is_resolved_before
list_resolved_before before limit = query λ s.
    if ltb_ℤ (to_int32 limit) (pos 0)
    then err database
    else ok (
        limited (pos_part (to_int32 limit))
          (sort_by resolved_le (select_rows (is_resolved_before before) s.tickets)))
