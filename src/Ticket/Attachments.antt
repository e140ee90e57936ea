-- ===== src/Ticket/Attachments.antt =====
-- Attachments of tickets: the calls of backend/internal/domain/ticket/service.go and their
-- statements in backend/internal/database/ticketstore/ticketstore.go.
use open_help_desk.Base.{
  ℕ, ◌≡◌, refl, Bool, none, some, List, [], ◌∷◌, ◌++◌, Uuid, Time, arith, ◌==◌, if◌then◌else◌,
  is_none,
}
use open_help_desk.Base.Table.{find_row, select_rows, delete_rows}
use open_help_desk.Exec.{
  Done, Exec, Env, World, calm, ok, err, not_found, database, found, statement, query, write,
}
use open_help_desk.Ticket.{Attachment}
use open_help_desk.Ticket.Store.{TicketDb}

abbrev pub has_attachment : Uuid → Attachment → Bool
has_attachment id a = a.id == id

-- The id is the primary key.
unfoldable pub create_attachment : Attachment → Exec TicketDb Done
create_attachment a = statement λ s.
    if is_none (find_row (has_attachment a.id) s.attachments)
    then (ok tt, record s { attachments = s.attachments ++ a ∷ [] })
    else (err database, s)

unfoldable pub get_attachment : Uuid → Exec TicketDb Attachment
get_attachment id = query (λ s. found (find_row (has_attachment id) s.attachments))

unfoldable pub list_attachments : Uuid → Exec TicketDb (List Attachment)
list_attachments ticket_id =
    query (λ s. ok (select_rows (λ a. a.ticket_id == ticket_id) s.attachments))

unfoldable pub delete_attachment : Uuid → Exec TicketDb Done
delete_attachment id =
    write (λ s. record s { attachments = delete_rows (has_attachment id) s.attachments })

find_row-append :
    (id : Uuid) (xs : List Attachment) (a : Attachment)
    → a.id ≡ id
    → find_row (has_attachment id) xs ≡ none
    → find_row (has_attachment id) (xs ++ a ∷ []) ≡ some a
unfolding find_row
find_row-append id [] a same h = ground arith
find_row-append id (x ∷ xs) a same h = ground (arith, find_row-append id xs a same)

find_row-delete :
    (id : Uuid) (xs : List Attachment)
    → find_row (has_attachment id) (delete_rows (has_attachment id) xs) ≡ none
unfolding find_row delete_rows
find_row-delete id [] = refl
find_row-delete id (x ∷ xs) = ground (arith, find_row-delete id xs)

module _ (a : Attachment) (env : Env) (w : World TicketDb) where
  -- An attachment that was stored is found under its id, and no longer once it is deleted, if the
  -- database refuses none of the statements that follow.
  get_attachment-create :
      (now_at : ℕ → Time) (uuid_at : ℕ → Uuid)
      → (create_attachment a env w).0 ≡ ok tt
      → let v = (create_attachment a env w).1 in
        let quiet = calm now_at uuid_at in
        ((get_attachment a.id quiet v).0 ≡ ok a)
        × ((get_attachment a.id quiet (delete_attachment a.id quiet v).1).0 ≡ err not_found)
  unfolding create_attachment get_attachment delete_attachment query write statement
  get_attachment-create now_at uuid_at h =
      let known = find_row-append a.id w.db.attachments a refl (ground arith) in
      let gone = find_row-delete a.id (w.db.attachments ++ a ∷ []) in (ground arith, ground arith)
