-- ===== src/Ticket/Rows.antt =====
-- The rows of the table of tickets under an update by id.
use open_help_desk.Base.{◌≡◌, refl, some, List, [], ◌∷◌, Uuid, Time, arith, if◌then◌else◌, ◌==◌}
use mathlib.Core.Option
use open_help_desk.Base.Table.{find_row, find_row_sound, update_rows}
use open_help_desk.Ticket.{Ticket}
use open_help_desk.Ticket.Store.{has_id, ticket_columns}

module _ (id : Uuid) (change : Ticket → Ticket)
    (same_id : (t : Ticket) → (change t).id ≡ t.id) where
  -- The row that is updated, and the others.
  pub find_row-update_rows :
      (j : Uuid) (ts : List Ticket)
      → find_row (has_id j) (update_rows (has_id id) change ts)
        ≡ (if j == id then Option.map change (find_row (has_id j) ts) else find_row (has_id j) ts)
  unfolding find_row update_rows
  find_row-update_rows j [] = ground arith
  find_row-update_rows j (t ∷ ts) = ground (arith, same_id t, find_row-update_rows j ts)

-- What was found under an id has that id.
id-find_row :
    (id : Uuid) (ts : List Ticket) (t : Ticket) → find_row (has_id id) ts ≡ some t → t.id ≡ id
id-find_row id ts t h = ground (arith, find_row_sound (has_id id) ts t h)

-- A row that was read and is then written back in other words.
pub find_row-write_back :
    (id : Uuid) (ts : List Ticket) (t t' : Ticket) (at : Time)
    → find_row (has_id id) ts ≡ some t
    → find_row (has_id id) (update_rows (has_id t.id) (ticket_columns t' at) ts)
      ≡ some (ticket_columns t' at t)
find_row-write_back id ts t t' at h = ground (
  arith,
  id-find_row id ts t h,
  find_row-update_rows t.id (ticket_columns t' at) (λ old. unfold ticket_columns in refl) id ts,
)
