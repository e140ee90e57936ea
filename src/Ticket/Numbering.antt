-- ===== src/Ticket/Numbering.antt =====
-- Tracking numbers over the life of the service: whatever is done and whatever the database
-- refuses, no two tickets get the same number.
pub mod Unique
use mathlib.Core.List.{map-append}
use open_help_desk.Base.{
  ℕ, zero, suc, ◌+◌, ◌≤◌, ◌<◌, ◌≡◌, refl, sym, ap, ◌∙◌, List, [], ◌∷◌, ◌++◌, Option, none, some,
  Time, map, arith, Bool-cases, inl, inr,
}
use open_help_desk.Base.Table.{get_elem?}
use open_help_desk.Exec.{Env, World, Exec, Result, ok, err, pure, ◌>>=◌, ◌>>◌}
use open_help_desk.Exec.Keeps.{
  Keeps, keeps_rules, Keeps-raise_if, Keeps-now, Keeps-fresh, Keeps-pure,
}
use open_help_desk.Exec.Triple.{Triple, Triple-bind, Triple-Keeps, Triple-statement}
use open_help_desk.Ticket.{Ticket}
use open_help_desk.Ticket.Store
use open_help_desk.Ticket.Store.{TicketDb}
use open_help_desk.Ticket.Service.{Service}
use open_help_desk.Ticket.Service.Create.{CreateInput, create, announce, opened}
use open_help_desk.Ticket.Operation.{
  Change, Operation, open_ticket, change, run_change, run, run_all,
}
use open_help_desk.Ticket.Tracking.{generate_tracking_number, generate_tracking_number_injective}
use open_help_desk.Ticket.Identity.{Identity, identity, HasIdentities, HasIdentities-IsStable}
use open_help_desk.Ticket.Stable.{run_change-Keeps, announce-Keeps}

-- The rows were numbered from sequence values above `lo`, ascending, up to `hi`.
abbrev pub IsNumbered : ℕ → List Identity → ℕ → Type 0
IsNumbered lo [] hi = lo ≤ hi
IsNumbered lo (t ∷ ts) hi =
    (year : ℕ) × (n : ℕ) × (t.tracking_number ≡ generate_tracking_number year n)
    × (lo < n)
    × IsNumbered n ts hi

IsNumbered-mono :
    (lo hi hi' : ℕ) (ts : List Identity) → hi ≤ hi' → IsNumbered lo ts hi → IsNumbered lo ts hi'
IsNumbered-mono lo hi hi' [] le h = omega arith
IsNumbered-mono lo hi hi' (t ∷ ts) le (y, n, e, l, h) =
    (y, n, e, l, IsNumbered-mono n hi hi' ts le h)

IsNumbered-append :
    (lo hi : ℕ) (ts : List Identity) (t : Identity) (year : ℕ)
    → IsNumbered lo ts hi
    → t.tracking_number ≡ generate_tracking_number year (suc hi)
    → IsNumbered lo (ts ++ t ∷ []) (suc hi)
IsNumbered-append lo hi [] t year h e = (year, suc hi, e, omega arith, omega arith)
IsNumbered-append lo hi (x ∷ ts) t year (y, n, q, l, h) e =
    (y, n, q, l, IsNumbered-append n hi ts t year h e)

-- The invariant of the tables.
abbrev pub IsNumberedDb : TicketDb → Type 0
IsNumberedDb s = IsNumbered 0 (map identity s.tickets) s.seq

-- The sequence has just given out `n`, and no row has it yet.
abbrev IsReserved : ℕ → TicketDb → Type 0
IsReserved n s = (s.seq ≡ n) × (m : ℕ) × (n ≡ suc m) × IsNumbered 0 (map identity s.tickets) m

IsReserved-numbered : (n : ℕ) (s : TicketDb) → IsReserved n s → IsNumberedDb s
IsReserved-numbered n s (e, m, q, h) =
    IsNumbered-mono 0 m s.seq (map identity s.tickets) (omega arith) h

abbrev AfterNext : Result ℕ → TicketDb → Type 0
AfterNext (ok n) s = IsReserved n s
AfterNext (err e) s = IsNumberedDb s

next_seq-triple : Triple IsNumberedDb Store.next_seq AfterNext
unfolding Store.next_seq
next_seq-triple = Triple-statement AfterNext (λ s h. h) (λ s h. (refl, s.seq, refl, h))

create-triple :
    (n year : ℕ) (t : Ticket)
    → t.tracking_number ≡ generate_tracking_number year n
    → Triple (IsReserved n) (Store.create t) (λ r s. IsNumberedDb s)
unfolding Store.create
create-triple n year t e = Triple-statement _ (IsReserved-numbered n) λ s h.
    elim (Bool-cases (Store.has_status t.status_id s.statuses)) [
      | inl there ↦
          rw (there, map-append)
            (IsNumbered-mono 0 (suc h.1) s.seq _ (omega arith) (
              IsNumbered-append 0 h.1 (map identity s.tickets) (identity (Store.inserted t)) year
                h.3 (e ∙ ap (generate_tracking_number year) h.2)))
      | inr missing ↦ rw missing (IsReserved-numbered n s h)
    ]

-- What keeps every identity keeps the numbering.
Keeps-IsNumberedDb :
    {A : Type 0} {m : Exec TicketDb A}
    → ((ids : List Identity) (n : ℕ) → Keeps (HasIdentities ids n) m)
    → Keeps IsNumberedDb m
Keeps-IsNumberedDb k = record {
  at = λ env w h.
      let same = (k (map identity w.db.tickets) w.db.seq).at env w (refl, refl) in
      rw (same.0, same.1) h;
}

run_change-IsNumberedDb : (svc : Service) (c : Change) → Keeps IsNumberedDb (run_change svc c)
run_change-IsNumberedDb svc c =
    Keeps-IsNumberedDb (λ ids n. run_change-Keeps (HasIdentities-IsStable ids n) svc c)

announce-IsNumberedDb :
    (svc : Service) (input : CreateInput) (t : Ticket) → Keeps IsNumberedDb (announce svc input t)
announce-IsNumberedDb svc input t =
    Keeps-IsNumberedDb (λ ids n. announce-Keeps (HasIdentities-IsStable ids n) svc input t)

-- Once the ticket is inserted.
tail-IsNumberedDb :
    (svc : Service) (input : CreateInput) (t : Ticket)
    → Keeps IsNumberedDb (announce svc input t >> pure t)
tail-IsNumberedDb svc input t = search (keeps_rules, announce-IsNumberedDb)

create-IsNumberedDb :
    (year : Time → ℕ) (svc : Service) (input : CreateInput)
    → Triple IsNumberedDb (create year svc input) (λ r s. IsNumberedDb s)
unfolding create
create-IsNumberedDb year svc input =
    Triple-bind (λ r s. IsNumberedDb s) _ (Triple-Keeps (Keeps-raise_if _ _))
      (λ _.
        Triple-bind AfterNext _ next_seq-triple
          (λ n.
            Triple-bind (λ r s. IsReserved n s) _ (Triple-Keeps Keeps-now)
              (λ at.
                Triple-bind (λ r s. IsReserved n s) _ (Triple-Keeps Keeps-fresh)
                  (λ id.
                    Triple-bind (λ r s. IsNumberedDb s) _
                      (create-triple n (year at)
                        (opened svc input id (generate_tracking_number (year at) n) at) refl)
                      (λ _. Triple-Keeps (tail-IsNumberedDb svc input _)) (λ e s h. h))
                  (λ e s. IsReserved-numbered n s))
              (λ e s. IsReserved-numbered n s))
          (λ e s h. h))
      (λ e s h. h)

module _ (year : Time → ℕ) (svc : Service) (env : Env) where
  run-IsNumberedDb :
      (op : Operation) (w : World TicketDb)
      → IsNumberedDb w.db
      → IsNumberedDb (run year svc op env w).1.db
  unfolding run
  run-IsNumberedDb (open_ticket input) w h =
      (Triple-bind (λ r s. IsNumberedDb s) _ (create-IsNumberedDb year svc input)
          (λ _. Triple-Keeps (Keeps-pure tt)) (λ e s h. h)).at
        env w h
  run-IsNumberedDb (change c) w h = (run_change-IsNumberedDb svc c).at env w h

  pub run_all-IsNumberedDb :
      (ops : List Operation) (w : World TicketDb)
      → IsNumberedDb w.db
      → IsNumberedDb (run_all year svc ops env w).db
  unfolding run_all
  run_all-IsNumberedDb [] w h = h
  run_all-IsNumberedDb (op ∷ ops) w h =
      run_all-IsNumberedDb ops (run year svc op env w).1 (run-IsNumberedDb op w h)
