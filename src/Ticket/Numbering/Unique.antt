-- ===== src/Ticket/Numbering/Unique.antt =====
-- No two rows of a numbered table share a tracking number.
use open_help_desk.Base.{
  ℕ, zero, suc, ◌<◌, ◌≡◌, refl, sym, ap, ◌∙◌, List, [], ◌∷◌, some, Time, map, arith,
}
use open_help_desk.Base.Table.{get_elem?, get_elem?-map}
use open_help_desk.Exec.{Env, World}
use open_help_desk.Ticket.{Ticket}
use open_help_desk.Ticket.Store.{TicketDb}
use open_help_desk.Ticket.Service.{Service}
use open_help_desk.Ticket.Operation.{Operation, run_all}
use open_help_desk.Ticket.Tracking.{generate_tracking_number, generate_tracking_number_injective}
use open_help_desk.Ticket.Identity.{Identity, identity}
use open_help_desk.Ticket.Numbering.{IsNumbered, IsNumberedDb, run_all-IsNumberedDb}

-- A numbered row stands above the lower bound.
IsNumbered-above :
    (lo hi : ℕ) (ts : List Identity) (i : ℕ) (t : Identity)
    → IsNumbered lo ts hi
    → get_elem? ts i ≡ some t
    → (year : ℕ) × (n : ℕ) × (t.tracking_number ≡ generate_tracking_number year n) × (lo < n)
IsNumbered-above lo hi [] i t h e = cc
IsNumbered-above lo hi (x ∷ ts) zero t (y, n, q, l, h) e = (y, n, ground (arith, e, q), l)
IsNumbered-above lo hi (x ∷ ts) (suc i) t (y, n, q, l, h) e =
    let (y', n', q', l') = IsNumbered-above n hi ts i t h e in (y', n', q', omega arith)

-- The head and a later row differ.
head_differs :
    (y n hi : ℕ) (x : Identity) (ts : List Identity) (j : ℕ) (b : Identity)
    → x.tracking_number ≡ generate_tracking_number y n
    → IsNumbered n ts hi
    → get_elem? ts j ≡ some b
    → x.tracking_number ≡ b.tracking_number
    → ⊥
head_differs y n hi x ts j b q h e same =
    let (y', n', q', l') = IsNumbered-above n hi ts j b h e in
    let eq = generate_tracking_number_injective y n y' n' (sym q ∙ same ∙ q') in
    absurd (omega (arith, eq.1))

IsNumbered-unique :
    (lo hi : ℕ) (ts : List Identity) (i j : ℕ) (a b : Identity)
    → IsNumbered lo ts hi
    → get_elem? ts i ≡ some a
    → get_elem? ts j ≡ some b
    → a.tracking_number ≡ b.tracking_number
    → i ≡ j
IsNumbered-unique lo hi [] i j a b h p q same = cc
IsNumbered-unique lo hi (x ∷ ts) zero zero a b h p q same = refl
IsNumbered-unique lo hi (x ∷ ts) zero (suc j) a b (y, n, e, l, h) p q same =
    absurd (head_differs y n hi x ts j b e h q (cc))
IsNumbered-unique lo hi (x ∷ ts) (suc i) zero a b (y, n, e, l, h) p q same =
    absurd (head_differs y n hi x ts i a e h p (cc))
IsNumbered-unique lo hi (x ∷ ts) (suc i) (suc j) a b (y, n, e, l, h) p q same =
    ap suc (IsNumbered-unique n hi ts i j a b h p q same)

-- In a database whose tickets were numbered by the sequence, after any operations, failed ones and
-- refused statements included, two rows of the table of tickets that have the same tracking number
-- are the same row.
pub run_all-tracking_unique :
    (year : Time → ℕ) (svc : Service) (ops : List Operation) (env : Env) (w : World TicketDb)
    → IsNumberedDb w.db
    → (i j : ℕ) (a b : Ticket) → get_elem? (run_all year svc ops env w).db.tickets i ≡ some a
    → get_elem? (run_all year svc ops env w).db.tickets j ≡ some b
    → a.tracking_number ≡ b.tracking_number
    → i ≡ j
run_all-tracking_unique year svc ops env w h i j a b p q same =
    let s = (run_all year svc ops env w).db in
    IsNumbered-unique 0 s.seq (map identity s.tickets) i j (identity a) (identity b)
      (run_all-IsNumberedDb year svc env ops w h) (get_elem?-map identity s.tickets i p)
      (get_elem?-map identity s.tickets j q) same
