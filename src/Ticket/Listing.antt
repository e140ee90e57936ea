-- ===== src/Ticket/Listing.antt =====
-- The paged lists of tickets: the `List…` methods of
-- backend/internal/database/ticketstore/ticketstore.go, newest first. Tickets of the same moment
-- come in the order of the table, which SQL leaves open.
use open_help_desk.Base.{
  ℕ, zero, suc, ◌≤◌, ◌≡◌, Bool, true, false, ◌&&◌, Option, none, some, List, [], ◌∷◌, Uuid, arith,
  if◌then◌else◌, ◌==◌, leb, is_none, Bool-cases, inl, inr,
}
use open_help_desk.Base.Table.{All, length, select_rows}
use open_help_desk.Base.Int.{ℤ, pos, pos_part, to_int32, ltb_ℤ}
use open_help_desk.Exec.{Env, World, Exec, ok, err, database, query, statement}
use open_help_desk.Ticket.{Ticket}
use open_help_desk.Ticket.Store.{TicketDb}

-- `ORDER BY created_at DESC`
unfoldable pub insert_newest : Ticket → List Ticket → List Ticket
insert_newest t [] = t ∷ []
insert_newest t (u ∷ us) =
    let rest = insert_newest t us in if leb u.created_at t.created_at then t ∷ u ∷ us else u ∷ rest

unfoldable pub newest_first : List Ticket → List Ticket
newest_first [] = []
newest_first (t ∷ ts) = insert_newest t (newest_first ts)

unfoldable pub limited : ℕ → List Ticket → List Ticket
limited zero ts = []
limited (suc n) [] = []
limited (suc n) (t ∷ ts) = t ∷ limited n ts

unfoldable pub skipped : ℕ → List Ticket → List Ticket
skipped zero ts = ts
skipped (suc n) [] = []
skipped (suc n) (t ∷ ts) = skipped n ts

-- `WHERE test ORDER BY created_at DESC LIMIT limit OFFSET offset`, whose numbers are cut to 32 bits
-- and must not be negative.
unfoldable pub list_page : (Ticket → Bool) → ℤ → ℤ → Exec TicketDb (List Ticket)
list_page test limit offset = query λ s.
    if ltb_ℤ (to_int32 limit) (pos 0)
    then err database
    else if ltb_ℤ (to_int32 offset) (pos 0)
    then err database
    else ok (
        limited (pos_part (to_int32 limit))
          (skipped (pos_part (to_int32 offset)) (newest_first (select_rows test s.tickets))))

-- `column = $1`, which NULL does not satisfy
abbrev pub is_uuid : Uuid → Option Uuid → Bool
is_uuid id column = elim column [ none ↦ false | some other ↦ other == id ]

unfoldable pub list_by_reporter : Uuid → ℤ → ℤ → Exec TicketDb (List Ticket)
unfolding list_page
list_by_reporter id = list_page (λ t. is_uuid id t.reporter_user_id)

unfoldable pub list_by_assignee_user : Uuid → ℤ → ℤ → Exec TicketDb (List Ticket)
list_by_assignee_user id = list_page (λ t. is_uuid id t.assignee_user_id)

unfoldable pub list_by_assignee_group : Uuid → ℤ → ℤ → Exec TicketDb (List Ticket)
list_by_assignee_group id = list_page (λ t. is_uuid id t.assignee_group_id)

unfoldable pub list_by_status : Uuid → ℤ → ℤ → Exec TicketDb (List Ticket)
list_by_status id = list_page (λ t. t.status_id == id)

unfoldable pub list_all : ℤ → ℤ → Exec TicketDb (List Ticket)
list_all = list_page (λ t. true)

unfoldable pub list_unassigned : ℤ → ℤ → Exec TicketDb (List Ticket)
list_unassigned = list_page (λ t. is_none t.assignee_user_id && is_none t.assignee_group_id)

module _ (P : Ticket → Type 0) where
  All-insert : (t : Ticket) (us : List Ticket) → P t → All P us → All P (insert_newest t us)
  unfolding insert_newest
  All-insert t [] p h = (p, tt)
  All-insert t (u ∷ us) p h = elim (Bool-cases (leb u.created_at t.created_at)) [
    | inl older ↦ rw older (p, h)
    | inr newer ↦ rw newer (h.0, All-insert t us p h.1)
  ]

  All-newest_first : (ts : List Ticket) → All P ts → All P (newest_first ts)
  unfolding newest_first
  All-newest_first [] h = tt
  All-newest_first (t ∷ ts) h = All-insert t (newest_first ts) h.0 (All-newest_first ts h.1)

  All-limited : (n : ℕ) (ts : List Ticket) → All P ts → All P (limited n ts)
  unfolding limited
  All-limited zero ts h = tt
  All-limited (suc n) [] h = tt
  All-limited (suc n) (t ∷ ts) h = (h.0, All-limited n ts h.1)

  All-skipped : (n : ℕ) (ts : List Ticket) → All P ts → All P (skipped n ts)
  unfolding skipped
  All-skipped zero ts h = h
  All-skipped (suc n) [] h = tt
  All-skipped (suc n) (t ∷ ts) h = All-skipped n ts h.1

All-select_rows :
    (test : Ticket → Bool) (ts : List Ticket) → All (λ t. test t ≡ true) (select_rows test ts)
unfolding select_rows
All-select_rows test [] = tt
All-select_rows test (t ∷ ts) = elim (Bool-cases (test t)) [
  | inl hit ↦ rw hit (hit, All-select_rows test ts)
  | inr miss ↦ rw miss (All-select_rows test ts)
]

pub length-limited : (n : ℕ) (ts : List Ticket) → length (limited n ts) ≤ n
unfolding limited
length-limited zero ts = omega arith
length-limited (suc n) [] = omega arith
length-limited (suc n) (t ∷ ts) = omega (arith, length-limited n ts)

-- A page of the tickets of a reporter holds no other tickets and at most as many as the limit, cut
-- to 32 bits, says.
pub list_by_reporter_ok :
    (id : Uuid) (limit offset : ℤ) (env : Env) (w : World TicketDb) (ts : List Ticket)
    → (list_by_reporter id limit offset env w).0 ≡ ok ts
    → All (λ t. is_uuid id t.reporter_user_id ≡ true) ts × (length ts ≤ pos_part (to_int32 limit))
unfolding list_by_reporter query statement
list_by_reporter_ok id limit offset env w ts h =
    let test : Ticket → Bool = λ t. is_uuid id t.reporter_user_id in
    let IsHit : Ticket → Type 0 = λ t. test t ≡ true in
    let rows =
      limited (pos_part (to_int32 limit))
        (skipped (pos_part (to_int32 offset)) (newest_first (select_rows test w.db.tickets))) in
    let same : rows ≡ ts = ground arith in
    rw (← same) (
      All-limited IsHit (pos_part (to_int32 limit)) _ (
          All-skipped IsHit (pos_part (to_int32 offset)) _
            (All-newest_first IsHit _ (All-select_rows test w.db.tickets))),
      length-limited (pos_part (to_int32 limit)) _,
    )
