-- ===== src/Server/Assignment/Fairness.antt =====
-- The round robin of `handleCreateTicket` of backend/internal/server/handler_tickets.go.
use native.Mathlib.Nat.{mod-lt, mod-eq_of_lt, mod-add-mod, add-mod_right}
use open_help_desk.Base.{
  ℕ, zero, suc, ◌+◌, ◌-◌, ◌%◌, ◌^◌, ◌≤◌, ◌<◌, ◌≡◌, refl, sym, ap, ◌∙◌, inl, inr, Option, none, some,
  List, [], ◌∷◌, ◌++◌, Uuid, Time, arith, Bool-cases, Option-cases, true, ltb, is_some,
}
use open_help_desk.Base.Order.{find_row-IsRow, All-IsRow}
use open_help_desk.Base.Rows.{find_row-update_rows}
use open_help_desk.Base.Table.{All, All-imp, All-update_rows, find_row, length, get_elem?}
use open_help_desk.Exec.{Env, World, calm, now, zoom, pure, attempt, ◌>>=◌}
use open_help_desk.Exec.Keeps.{
  Keeps, keeps_rules, Keeps-bind, Keeps-now, Keeps-when, Keeps-write, Keeps-modify,
}
use open_help_desk.Ticket.{Ticket, Actor, system_actor}
use open_help_desk.Ticket.Store as Tickets
use open_help_desk.Ticket.Store.{TicketDb, AuditEntry, Event, has_id, has_status, ticket_columns}
use open_help_desk.Ticket.Service
use open_help_desk.Settings.Reading.{texts_at-calm}
use open_help_desk.Settings.Service.{auto_assign_user_ids}
use open_help_desk.Server.{AppDb, Platform, on_tickets, on_settings}
use open_help_desk.Server.Assignment.{IsAssignedTo, IsKept, configured_users, quietly-IsAssignedTo}
use open_help_desk.Server.Creation.{assign_round_robin, assign_quietly, next_turn, nth_user}

length-get_elem? :
    {A : Type 0} (xs : List A) (i : ℕ) {a : A} → get_elem? xs i ≡ some a → i < length xs
length-get_elem? [] i h = absurd cc
length-get_elem? (x ∷ xs) zero h = omega arith
length-get_elem? (x ∷ xs) (suc i) h = let ih = length-get_elem? xs i h in omega arith

-- The number of turns until the residue i comes up.
turns_until : (len i n : ℕ) → i < len → (j : ℕ) × (0 < j) × (j ≤ len) × ((n + j) % len ≡ i)
turns_until len i n h =
    let below : n % len < len = mod-lt n (omega arith) in
    elim (Bool-cases (ltb (n % len) i)) [
      | inl before ↦
          let j = i - n % len in
          let sum : n % len + j ≡ i = ground arith in
          (
            j,
            ground arith,
            ground arith,
            sym (mod-add-mod n len j) ∙ ap (λ x. x % len) sum ∙ mod-eq_of_lt h,
          )
      | inr after ↦
          let j = i + len - n % len in
          let sum : n % len + j ≡ i + len = ground arith in
          (
            j,
            ground arith,
            ground arith,
            sym (mod-add-mod n len j)
                ∙ ap (λ x. x % len) sum
                ∙ add-mod_right i len
                ∙ mod-eq_of_lt h,
          )
    ]

split_at :
    {A : Type 0} (k : ℕ) (xs : List A)
    → k < length xs
    → (front : List A) × (x : A) × (back : List A) × (xs ≡ front ++ x ∷ back) × (length front ≡ k)
split_at k [] h = absurd (omega arith)
split_at zero (x ∷ xs) h = ([], x, xs, refl, refl)
split_at (suc k) (y ∷ xs) h =
    let (front, x, back, same, long) = split_at k xs (omega arith) in
    (y ∷ front, x, back, ap (λ l. y ∷ l) same, ap suc long)

All-front :
    {A : Type 0} (P : A → Type 0) (front : List A) (x : A) (back : List A)
    → All P (front ++ x ∷ back)
    → All P (front ++ x ∷ [])
All-front P [] x back h = (h.0, tt)
All-front P (y ∷ front) x back h = (h.0, All-front P front x back h.1)

-- The tickets are stored, and every stored ticket has a stored status.
abbrev pub IsReady : List Uuid → TicketDb → Type 0
IsReady ids s =
    All (λ id. is_some (find_row (has_id id) s.tickets) ≡ true) ids
    × All (λ t. has_status t.status_id s.statuses ≡ true) s.tickets

update-IsReady : (ids : List Uuid) (t : Ticket) → Keeps (IsReady ids) (Tickets.update t)
unfolding Tickets.update ticket_columns
update-IsReady ids t = Keeps-bind now _ Keeps-now λ at. Keeps-when _ _ _ _ λ s fits (stored, known).
    (
      All-imp _ _ ids
          (λ id h.
            find_row-update_rows (has_id id) (has_id t.id) (ticket_columns t at) s.tickets
              (λ old. refl)
            ∙ h)
          stored,
      All-update_rows _ (has_id t.id) (ticket_columns t at) s.tickets (λ old hit h. fits) known,
    )

audit-IsReady :
    (ids : List Uuid) (e : AuditEntry) → Keeps (IsReady ids) (Tickets.create_audit_entry e)
unfolding Tickets.create_audit_entry
audit-IsReady ids e = Keeps-write _ (λ s h. h)

dispatch-IsReady : (ids : List Uuid) (e : Event) → Keeps (IsReady ids) (Service.dispatch e)
unfolding Service.dispatch
dispatch-IsReady ids e = Keeps-modify _ (λ s h. h)

assign-IsReady :
    (ids : List Uuid) (id : Uuid) (u g : Option Uuid) (actor : Actor)
    → Keeps (IsReady ids) (Service.assign id u g actor)
unfolding Service.assign Service.write_audit Service.notify Tickets.get_by_id
assign-IsReady ids id u g actor =
    search (keeps_rules, update-IsReady, audit-IsReady, dispatch-IsReady) depth 40

IsReady-IsKept : (id : Uuid) (ids : List Uuid) (s : TicketDb) → IsReady (id ∷ ids) s → IsKept id s
IsReady-IsKept id ids s ((stored, rest), known) =
    elim (Option-cases (find_row (has_id id) s.tickets)) [
      | inl missing ↦ absurd (ground arith)
      | inr (t, there) ↦
          (t, there, All-IsRow _ s.tickets t known (find_row-IsRow (has_id id) s.tickets t there))
    ]

module _ (p : Platform) where
  -- The round robin for one ticket after the other.
  unfoldable pub assign_each : List Uuid → Env → World AppDb → World AppDb
  unfolding assign_round_robin
  assign_each [] env w = w
  assign_each (id ∷ ids) env w = assign_each ids env (assign_round_robin p id env w).1

  module _ (now_at : ℕ → Time) (uuid_at : ℕ → Uuid) (user_id : Uuid) (users : List Uuid) where
    -- The world in which the user of the turn has been determined.
    abbrev drawn : World AppDb → World AppDb
    drawn w = record { db = record w.db { turns = suc w.db.turns % 2 ^ 64 }; calls = suc w.calls }

    round_robin-drawn :
        (id : Uuid) (w : World AppDb)
        → configured_users p w.db.settings ≡ user_id ∷ users
        → assign_round_robin p id (calm now_at uuid_at) w
          ≡ assign_quietly id
              (nth_user (user_id ∷ users) (suc w.db.turns % 2 ^ 64))
              none
              (calm now_at uuid_at)
              (drawn w)
    unfolding assign_round_robin on_settings auto_assign_user_ids next_turn zoom pure ◌>>=◌
    round_robin-drawn id w h = rw texts_at-calm (rw h refl)

    -- What one round changes: the counter, and nothing of the settings.
    round_robin-turns :
        (id : Uuid) (w : World AppDb)
        → configured_users p w.db.settings ≡ user_id ∷ users
        → let v = (assign_round_robin p id (calm now_at uuid_at) w).1 in
          (v.db.turns ≡ suc w.db.turns % 2 ^ 64) × (v.db.settings ≡ w.db.settings)
    unfolding on_tickets zoom attempt
    round_robin-turns id w h = rw (round_robin-drawn id w h) (refl, refl)

    round_robin-IsReady :
        (ids : List Uuid) (id : Uuid) (w : World AppDb)
        → configured_users p w.db.settings ≡ user_id ∷ users
        → IsReady ids w.db.tickets
        → IsReady ids (assign_round_robin p id (calm now_at uuid_at) w).1.db.tickets
    unfolding on_tickets zoom attempt
    round_robin-IsReady ids id w h ready = rw (round_robin-drawn id w h) (
        (assign-IsReady ids id (nth_user (user_id ∷ users) (suc w.db.turns % 2 ^ 64)) none
            system_actor).at
          (calm now_at uuid_at) (record { db = w.db.tickets; calls = suc w.calls }) ready)

    round_robin-IsAssignedTo :
        (id : Uuid) (w : World AppDb)
        → configured_users p w.db.settings ≡ user_id ∷ users
        → IsKept id w.db.tickets
        → IsAssignedTo id
            (nth_user (user_id ∷ users) (suc w.db.turns % 2 ^ 64))
            none
            (assign_round_robin p id (calm now_at uuid_at) w).1.db.tickets
    round_robin-IsAssignedTo id w h kept = rw (round_robin-drawn id w h) (
        quietly-IsAssignedTo now_at uuid_at id
          (nth_user (user_id ∷ users) (suc w.db.turns % 2 ^ 64)) none (drawn w) kept)

    -- The last of some tickets gets the user whose turn has come.
    last-IsAssignedTo :
        (front : List Uuid) (id : Uuid) (w : World AppDb)
        → configured_users p w.db.settings ≡ user_id ∷ users
        → IsReady (front ++ id ∷ []) w.db.tickets
        → w.db.turns + suc (length front) < 2 ^ 64
        → IsAssignedTo id
            (nth_user (user_id ∷ users) (w.db.turns + suc (length front)))
            none
            (assign_each (front ++ id ∷ []) (calm now_at uuid_at) w).db.tickets
    unfolding assign_each
    last-IsAssignedTo [] id w h ready room =
        let turn : suc w.db.turns % 2 ^ 64 ≡ w.db.turns + 1 = omega arith in
        rw (sym turn) (round_robin-IsAssignedTo id w h (IsReady-IsKept id [] w.db.tickets ready))
    last-IsAssignedTo (first ∷ front) id w h ready room =
        let next = (assign_round_robin p first (calm now_at uuid_at) w).1 in
        let (turns, settings) = round_robin-turns first w h in
        let counted : next.db.turns + suc (length front) ≡ w.db.turns + suc (suc (length front)) =
          omega arith in
        let (stored, known) = round_robin-IsReady (first ∷ front ++ id ∷ []) first w h ready in
        rw (sym counted) (
          last-IsAssignedTo front id next (ap (configured_users p) settings ∙ h) (stored.1, known)
            (omega arith))

  -- While new tickets go to the users of the settings in turn, every user of the list gets one of as
  -- many tickets as the list is long: if the database refuses nothing, the tickets and the statuses of
  -- all tickets are stored, and the counter stays below 2^64, some ticket is assigned to the user by
  -- the time that its assignment is over.
  pub round_robin_fair :
      (now_at : ℕ → Time) (uuid_at : ℕ → Uuid) (w : World AppDb) (i : ℕ) (user_id : Uuid)
      (tickets : List Uuid)
      → get_elem? (configured_users p w.db.settings) i ≡ some user_id
      → length tickets ≡ length (configured_users p w.db.settings)
      → IsReady tickets w.db.tickets
      → w.db.turns + length tickets < 2 ^ 64
      → (front : List Uuid) × (id : Uuid) × (back : List Uuid) × (tickets ≡ front ++ id ∷ back)
        × IsAssignedTo id
            (some user_id)
            none
            (assign_each (front ++ id ∷ []) (calm now_at uuid_at) w).db.tickets
  round_robin_fair now_at uuid_at w i user_id tickets there enough ready room =
      go (configured_users p w.db.settings) refl there enough
    where
      go :
          (users : List Uuid)
          → configured_users p w.db.settings ≡ users
          → get_elem? users i ≡ some user_id
          → length tickets ≡ length users
          → (front : List Uuid) × (id : Uuid) × (back : List Uuid) × (tickets ≡ front ++ id ∷ back)
            × IsAssignedTo id
                (some user_id)
                none
                (assign_each (front ++ id ∷ []) (calm now_at uuid_at) w).db.tickets
      go [] same found long = absurd cc
      go (u ∷ us) same found long =
          let (j, positive, soon, turn) =
            turns_until (suc (length us)) i w.db.turns (length-get_elem? (u ∷ us) i found) in
          let (front, id, back, split, before) = split_at (j - 1) tickets (omega arith) in
          let count : w.db.turns + suc (length front) ≡ w.db.turns + j = omega arith in
          let chosen : nth_user (u ∷ us) (w.db.turns + suc (length front)) ≡ some user_id =
            ap (λ n. nth_user (u ∷ us) n) count ∙ ap (λ n. get_elem? (u ∷ us) n) turn ∙ found in
          let (stored, known) = ready in
          let some_ready : IsReady (front ++ id ∷ []) w.db.tickets =
            (All-front _ front id back (rw (sym split) stored), known) in
          let last =
            last-IsAssignedTo now_at uuid_at u us front id w same some_ready (omega arith) in
          (front, id, back, split, rw (sym chosen) last)
