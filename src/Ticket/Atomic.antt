-- ===== src/Ticket/Atomic.antt =====
-- Failed operations of backend/internal/domain/ticket/service.go: what they leave behind.
use open_help_desk.Base.{ℕ, suc, ◌≡◌, ◌⊎◌, inl, inr, Bool, Bool-cases, Option, Uuid, Time, arith}
use open_help_desk.Base.Table.{update_rows}
use open_help_desk.Base.Text.{Text}
use open_help_desk.Base.Int.{ℤ}
use open_help_desk.Exec.{Env, World, err, Error, ◌>>=◌}
use open_help_desk.Ticket.{Actor}
use open_help_desk.Ticket.Store
use open_help_desk.Ticket.Store.{TicketDb}
use open_help_desk.Ticket.Service
use open_help_desk.Ticket.Service.{Service}
use open_help_desk.Ticket.Service.Create.{CreateInput, create, announce}
use open_help_desk.Ticket.Operation.{
  Change, update_status, assign, add_reply, resolve, close, reopen, add_link, remove_link,
  update_cti, add_status, save_status, remove_status, run_change, Operation, open_ticket, change,
  run,
}

-- `UpdateCTI` reads the ticket again after its update, and may fail there.
abbrev IsAtomic : Change → Type 0
IsAtomic (update_cti id c t i) = ⊥
IsAtomic _ = Unit

-- Nothing has changed, or the ticket has its new category, type and item.
abbrev pub IsReclassified : Uuid → Uuid → Option Uuid → Option Uuid → TicketDb → TicketDb → Type 0
IsReclassified id c t i before after =
    (after ≡ before)
    ⊎ ((at : Time) × (after ≡ record before {
      tickets = update_rows (Store.has_id id) (Store.cti_columns c t i at) before.tickets;
    }))

module _ (svc : Service) (env : Env) (w : World TicketDb) (e : Error) where
  abbrev LeavesAlone : Change → Type 0
  LeavesAlone c = (run_change svc c env w).0 ≡ err e → (run_change svc c env w).1.db ≡ w.db

  update_status-err : (id st : Uuid) (actor : Actor) → LeavesAlone (update_status id st actor)
  unfolding run_change Service.update_status Store.get_by_id Store.list_statuses Store.update ◌>>=◌
  update_status-err id st actor h = ground arith

  add_reply-err :
      (id : Uuid) (body : Text) (internal mail : Bool) (to : Text) (actor : Actor) (days : ℤ)
      (target : Uuid)
      → LeavesAlone (add_reply id body internal mail to actor days target)
  unfolding run_change Service.add_reply Store.get_by_id Store.list_statuses Store.create_reply
      ◌>>=◌
  add_reply-err id body internal mail to actor days target h = ground arith

  run_change-err :
      (c : Change)
      → IsAtomic c
      → (run_change svc c env w).0 ≡ err e
      → (run_change svc c env w).1.db ≡ w.db
  unfolding run_change ◌>>=◌
  run_change-err (update_status id st actor) a h = update_status-err id st actor h
  run_change-err (assign id u g actor) a h =
      unfold Service.assign Store.get_by_id Store.update in ground arith
  run_change-err (add_reply id body internal mail to actor days target) a h =
      add_reply-err id body internal mail to actor days target h
  run_change-err (resolve id notes actor) a h =
      unfold Service.resolve Store.get_by_id Store.update in ground arith
  run_change-err (close id) a h = unfold Service.close Store.get_by_id Store.update in ground arith
  run_change-err (reopen id target actor) a h =
      unfold Service.reopen Store.get_by_id Store.update in ground arith
  run_change-err (add_link x y lt actor) a h =
      unfold Service.add_link Store.create_link in ground arith
  run_change-err (remove_link x y lt) a h =
      unfold Service.remove_link Store.delete_link in ground arith
  run_change-err (update_cti id c t i) a h = absurd a
  run_change-err (add_status st) a h = unfold Service.add_status Store.create_status in ground arith
  run_change-err (save_status st) a h =
      unfold Service.save_status Store.update_status in ground arith
  run_change-err (remove_status id) a h =
      unfold Service.remove_status Store.list_statuses Store.count_by_status Store.delete_status in
      ground arith

  update_cti-err :
      (id c : Uuid) (t i : Option Uuid)
      → (run_change svc (update_cti id c t i) env w).0 ≡ err e
      → IsReclassified id c t i w.db (run_change svc (update_cti id c t i) env w).1.db
  unfolding run_change Service.update_cti Store.update_cti Store.get_by_id ◌>>=◌
  update_cti-err id c t i h = elim (Bool-cases (env.fails_at (suc w.calls))) [
    | inl refused ↦ inl (ground arith)
    | inr written ↦ inr (env.now_at w.calls, ground arith)
  ]

-- What a failed operation leaves of the tables: `Create` may have used up a tracking number, and
-- `UpdateCTI` may have written its columns.
abbrev pub IsLeft : Operation → TicketDb → TicketDb → Type 0
IsLeft (open_ticket input) before after = after ≡ record before { seq = after.seq }
IsLeft (change (update_cti id c t i)) before after = IsReclassified id c t i before after
IsLeft (change _) before after = after ≡ before

module _ (year : Time → ℕ) (svc : Service) (env : Env) (w : World TicketDb) (e : Error) where
  create-err :
      (input : CreateInput)
      → (run year svc (open_ticket input) env w).0 ≡ err e
      → IsLeft (open_ticket input) w.db (run year svc (open_ticket input) env w).1.db
  unfolding run create Store.next_seq Store.create announce ◌>>=◌
  create-err input h = ground arith

  -- Whatever the database refuses, an operation that fails hands no event over, writes no history,
  -- audit entry, reply or link and changes no status and no row of the service levels; and the
  -- tickets and the counter of tracking numbers stay as they are too, but for two exceptions: a
  -- failed `Create` may have moved the counter, and a failed `UpdateCTI` may have given the ticket its
  -- new category, type and item.
  pub run-err :
      (op : Operation)
      → (run year svc op env w).0 ≡ err e
      → IsLeft op w.db (run year svc op env w).1.db
  unfolding run
  run-err (open_ticket input) h = create-err input h
  run-err (change (update_status id st actor)) h = run_change-err svc env w e _ tt h
  run-err (change (assign id u g actor)) h = run_change-err svc env w e _ tt h
  run-err (change (add_reply id body internal mail to actor days target)) h =
      run_change-err svc env w e _ tt h
  run-err (change (resolve id notes actor)) h = run_change-err svc env w e _ tt h
  run-err (change (close id)) h = run_change-err svc env w e _ tt h
  run-err (change (reopen id target actor)) h = run_change-err svc env w e _ tt h
  run-err (change (add_link x y lt actor)) h = run_change-err svc env w e _ tt h
  run-err (change (remove_link x y lt)) h = run_change-err svc env w e _ tt h
  run-err (change (update_cti id c t i)) h = update_cti-err svc env w e id c t i h
  run-err (change (add_status st)) h = run_change-err svc env w e _ tt h
  run-err (change (save_status st)) h = run_change-err svc env w e _ tt h
  run-err (change (remove_status id)) h = run_change-err svc env w e _ tt h
