-- ===== src/Registration/Store.antt =====
-- The table of pending registrations:
-- backend/internal/database/registrationstore/registrationstore.go. The state holds beside it the
-- users and the verification mails that were sent.
use open_help_desk.Base.{Bool, none, some, List, [], ◌∷◌, ◌++◌, Uuid, ◌==◌}
use open_help_desk.Base.Table.{find_row, update_rows, delete_rows}
use open_help_desk.Base.Text.{Text, text_eq}
use open_help_desk.Exec.{Done, Exec, ok, found, statement, query, write}
use open_help_desk.User.Store.{UserDb}
use open_help_desk.Registration.{PendingRegistration}

pub record Mail : Type 0 where
  pub to : Text
  pub token : Uuid

pub record RegistrationDb : Type 0 where
  pub pending : List PendingRegistration
  pub users : UserDb
  pub mails : List Mail

-- The columns that `ON CONFLICT … DO UPDATE` sets: the id and the spelling of the email stay.
unfoldable pub renewed : PendingRegistration → PendingRegistration → PendingRegistration
renewed r old = record old {
  display_name = r.display_name;
  password_hash = r.password_hash;
  token = r.token;
  expires_at = r.expires_at;
  created_at = r.created_at;
}

-- `lower` is the database's function on texts, by which the index tells emails apart.
unfoldable pub upsert :
    (Text → Text) → PendingRegistration → Exec RegistrationDb PendingRegistration
unfolding renewed
upsert lower r =
    let same : PendingRegistration → Bool = λ q. text_eq (lower q.email) (lower r.email) in
    statement λ s. elim (find_row same s.pending) [
      | none ↦ (ok r, record s { pending = s.pending ++ r ∷ [] })
      | some old ↦
          (ok (renewed r old), record s { pending = update_rows same (renewed r) s.pending })
    ]

unfoldable pub get_by_token : Uuid → Exec RegistrationDb PendingRegistration
get_by_token token = query (λ s. found (find_row (λ r. r.token == token) s.pending))

unfoldable pub delete : Uuid → Exec RegistrationDb Done
delete id = write (λ s. record s { pending = delete_rows (λ r. r.id == id) s.pending })
