-- ===== src/Ticket/Operation.antt =====
-- The operations of backend/internal/domain/ticket/service.go that write, but those on attachments, as
-- data, so that a history of the service is a list of them. The handlers call them one after the
-- other.
use open_help_desk.Base.{ℕ, Bool, Option, List, [], ◌∷◌, Uuid, Time}
use open_help_desk.Base.Text.{Text}
use open_help_desk.Base.Int.{ℤ}
use open_help_desk.Exec.{Done, Env, World, Exec, forget}
use open_help_desk.Ticket.{Status, LinkType, Actor}
use open_help_desk.Ticket.Store.{TicketDb}
use open_help_desk.Ticket.Service.{Service}
use open_help_desk.Ticket.Service
use open_help_desk.Ticket.Service.Create.{CreateInput, create}

-- Every operation of these but the one that opens a ticket.
pub data Change : Type 0 where
  update_status : Uuid → Uuid → Actor → Change
  assign : Uuid → Option Uuid → Option Uuid → Actor → Change
  add_reply : Uuid → Text → Bool → Bool → Text → Actor → ℤ → Uuid → Change
  resolve : Uuid → Text → Actor → Change
  close : Uuid → Change
  reopen : Uuid → Uuid → Actor → Change
  add_link : Uuid → Uuid → LinkType → Actor → Change
  remove_link : Uuid → Uuid → LinkType → Change
  update_cti : Uuid → Uuid → Option Uuid → Option Uuid → Change
  add_status save_status : Status → Change
  remove_status : Uuid → Change

pub data Operation : Type 0 where
  open_ticket : CreateInput → Operation
  change : Change → Operation

unfoldable pub run_change : Service → Change → Exec TicketDb Done
run_change svc (update_status id st actor) = forget (Service.update_status id st actor)
run_change svc (assign id u g actor) = forget (Service.assign id u g actor)
run_change svc (add_reply id body internal mail to actor days target) =
    forget (Service.add_reply svc id body internal mail to actor days target)
run_change svc (resolve id notes actor) = forget (Service.resolve svc id notes actor)
run_change svc (close id) = Service.close svc id
run_change svc (reopen id target actor) = forget (Service.reopen svc id target actor)
run_change svc (add_link a b lt actor) = Service.add_link a b lt actor
run_change svc (remove_link a b lt) = Service.remove_link a b lt
run_change svc (update_cti id c t i) = forget (Service.update_cti id c t i)
run_change svc (add_status st) = Service.add_status st
run_change svc (save_status st) = Service.save_status st
run_change svc (remove_status id) = Service.remove_status id

module _ (year : Time → ℕ) (svc : Service) where
  unfoldable pub run : Operation → Exec TicketDb Done
  run (open_ticket input) = forget (create year svc input)
  run (change c) = run_change svc c

  -- A failed operation does not stop the service.
  unfoldable pub run_all : List Operation → Env → World TicketDb → World TicketDb
  run_all [] env w = w
  run_all (op ∷ ops) env w = run_all ops env (run op env w).1
