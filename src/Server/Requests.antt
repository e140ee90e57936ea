-- ===== src/Server/Requests.antt =====
-- Who may do what with one ticket: the handlers of backend/internal/server/handler_tickets.go whose
-- answer depends on the actor.
use open_help_desk.Base.{ℕ, ◌≡◌, ◌⊎◌, true, false, Option, none, some, Uuid}
use open_help_desk.Base.Table.{find_row}
use open_help_desk.Base.Text.{Text, trim_space, is_empty}
use open_help_desk.Exec.{Env, World, Exec, Result, ok}
use open_help_desk.Ticket.{Ticket, is_user, is_admin}
use open_help_desk.Ticket.Store as Tables
use open_help_desk.Ticket.Store.{has_id}
use open_help_desk.Ticket.Service
use open_help_desk.Auth.{Actor}
use open_help_desk.Server.{AppDb, Platform, Response, success}
use open_help_desk.Server.Tickets.{
  UpdateBody, ReplyBody, handle_update_ticket, handle_add_reply, handle_reopen_ticket,
  handle_close_ticket, handle_list_status_history,
}

-- The requests, with the path's id and the body.
pub data Request : Type 0 where
  update : Text → Option UpdateBody → Request
  reply : Text → Option ReplyBody → Request
  reopen close history : Text → Request

abbrev pub IsSuccess : {A : Type 0} → Result (Response A) → Type 0
IsSuccess {A} r = (n : ℕ) × (value : A) × (r ≡ ok (success n value))

module _ (p : Platform) (a : Actor) (env : Env) (w : World AppDb) where
  -- The handler of the request answers with a success.
  abbrev pub IsServed : Request → Type 0
  IsServed (update id body) = IsSuccess (handle_update_ticket p a id body env w).0
  IsServed (reply id body) = IsSuccess (handle_add_reply p a id body env w).0
  IsServed (reopen id) = IsSuccess (handle_reopen_ticket p a id env w).0
  IsServed (close id) = IsSuccess (handle_close_ticket p a id env w).0
  IsServed (history id) = IsSuccess (handle_list_status_history p (some a) id env w).0

  -- Users change no category, write no internal note, reopen nothing themselves and see the history of
  -- the tickets that they have reported; only admins close tickets; and a reply has a text.
  abbrev pub IsPermitted : Request → Type 0
  IsPermitted (update id body) =
      (uid : Uuid) × (b : UpdateBody) × (p.parse_uuid id ≡ some uid)
      × (body ≡ some b)
      × ((b.category_id ≡ none) ⊎ (is_user a.role ≡ false))
  IsPermitted (reply id body) =
      (uid : Uuid) × (b : ReplyBody) × (p.parse_uuid id ≡ some uid)
      × (body ≡ some b)
      × (is_empty (trim_space b.body) ≡ false)
      × ((b.internal ≡ false) ⊎ (is_user a.role ≡ false))
  IsPermitted (reopen id) = (uid : Uuid) × (p.parse_uuid id ≡ some uid) × (is_user a.role ≡ false)
  IsPermitted (close id) = (uid : Uuid) × (p.parse_uuid id ≡ some uid) × (is_admin a.role ≡ true)
  IsPermitted (history id) =
      (uid : Uuid) × (p.parse_uuid id ≡ some uid)
      × ((is_user a.role ≡ false)
          ⊎ ((t : Ticket) × (find_row (has_id uid) w.db.tickets.tickets ≡ some t)
              × (t.reporter_user_id ≡ some a.user_id)))
