-- ===== src/Server/Creation/Answers.antt =====
-- What `handleCreateTicket` of backend/internal/server/handler_tickets.go answers.
use open_help_desk.Base.{◌≡◌, refl, Option, none, some, List, [], ◌∷◌, Uuid}
use open_help_desk.Base.Text.{Text}
use open_help_desk.Exec.{Done, ok, Exec, World, Env, pure, attempt, ◌>>=◌, ◌>>◌}
use open_help_desk.Exec.Total.{Total, total_rules, Total-pure, Total-if, Total-bind, Total-attempt}
use open_help_desk.Ticket.{Ticket}
use open_help_desk.Ticket.Service.Create.{create}
use open_help_desk.Group.{Group}
use open_help_desk.Settings.Service as Settings
use open_help_desk.Auth.{Actor}
use open_help_desk.Server.{AppDb, Platform, success, answer, on_tickets, on_settings, on_fields}
use open_help_desk.Server.Creation.{
  CreateBody, auto_assign, assign_matched, assign_globally, assign_round_robin, next_turn,
  set_field, set_fields, created, create_ticket, input_of,
}

Total-or_else : {A : Type 0} (d : A) (m : Exec _ A) → Total (Settings.or_else d m)
unfolding Settings.or_else
Total-or_else d m = search total_rules depth 20

Total-next_turn : Total next_turn
unfolding next_turn
Total-next_turn = record { at = λ env w. (_, refl) }

module _ (p : Platform) where
  round_robin-Total : (id : Uuid) → Total (assign_round_robin p id)
  unfolding assign_round_robin on_settings Settings.auto_assign_user_ids Settings.texts_at
  round_robin-Total id = search (total_rules, Total-next_turn, Total-or_else) depth 30

  globally-Total : (id : Uuid) (group : Option Uuid) → Total (assign_globally p id group)
  globally-Total id (some g) = Total-attempt _
  globally-Total id none = round_robin-Total id

  group-Total :
      (id : Uuid)
      → Total
          (on_settings (Settings.auto_assign_group_id p.parse_uuid) >>= λ g. assign_globally p id g)
  unfolding on_settings Settings.auto_assign_group_id Settings.text_at
  group-Total id = search (total_rules, globally-Total, Total-or_else) depth 30

  matched-Total : (id : Uuid) (gs : Option (List Group)) → Total (assign_matched p id gs)
  matched-Total id none = group-Total id
  matched-Total id (some []) = group-Total id
  matched-Total id (some (g ∷ gs)) = Total-attempt _

  auto_assign-Total : (t : Ticket) → Total (auto_assign p t)
  unfolding auto_assign
  auto_assign-Total t = search (total_rules, matched-Total) depth 20

  set_field-Total : (id : Uuid) (key value : Text) → Total (set_field p id key value)
  set_field-Total id key value = Total-if _ _ _ (Total-pure tt) (parsed (p.parse_uuid key))
    where
      parsed :
          (o : Option Uuid)
          → Total {S = AppDb} {A = Done} (elim o [
            | none ↦ pure tt
            | some f ↦ attempt (on_fields (open_help_desk.CustomField.Service.set_value id f value))
          ])
      parsed none = Total-pure tt
      parsed (some f) = Total-attempt _

  set_fields-Total : (id : Uuid) (fs : List (Text × Text)) → Total (set_fields p id fs)
  unfolding set_fields
  set_fields-Total id [] = Total-pure tt
  set_fields-Total id (f ∷ fs) =
      Total-bind _ _ (set_field-Total id f.0 f.1) (λ d. set_fields-Total id fs)

  -- The chain after the insertion returns the ticket.
  answered :
      (m k : Exec AppDb Done) (t : Ticket) (env : Env) (w : World AppDb)
      → Total m
      → Total k
      → ((m >> (k >> answer 201 t)) env w).0 ≡ ok (success 201 t)
  unfolding ◌>>=◌ pure
  answered m k t env w h l =
      let (d, first) = h.at env w in
      let (e, second) = l.at env (m env w).1 in rw first (rw second refl)

  -- Once `Create` has stored the ticket, the answer is 201 with the ticket: what follows, the
  -- assignment and the custom fields, does not change the answer, whatever fails there.
  pub create_ticket_answered :
      (a : Option Actor) (b : CreateBody) (env : Env) (w : World AppDb) (t : Ticket)
      → (on_tickets (create p.year p.service (input_of a b)) env w).0 ≡ ok t
      → (create_ticket p a b env w).0 ≡ ok (success 201 t)
  unfolding create_ticket created
  create_ticket_answered a b env w t h = rw h (
      answered (auto_assign p t) (set_fields p t.id b.custom_fields) t env _ (auto_assign-Total t)
        (set_fields-Total t.id b.custom_fields))
