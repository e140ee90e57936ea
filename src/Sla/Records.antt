-- ===== src/Sla/Records.antt =====
-- Records in the table: backend/internal/domain/sla/service.go.
use open_help_desk.Base.{
  ℕ, ◌≡◌, refl, Bool, true, false, Option, none, some, List, [], ◌∷◌, inl, inr, Uuid, Time, arith,
  Option-cases, ◌==◌, is_none, ◌⊎◌, ◌++◌, ◌&&◌,
}
use open_help_desk.Base.Table.{find_row, find_row_sound, update_rows}
use open_help_desk.Exec.{Env, World, calm, ◌>>=◌}
use open_help_desk.Ticket.{Ticket, Priority}
use open_help_desk.Sla.{SlaRecord, Policy}
use open_help_desk.Sla.Store
use open_help_desk.Sla.Store.{SlaDb, record_columns, is_category, has_priority, best_policy}
use open_help_desk.Sla.Service.{record_first_response, attach_policy, new_record}

abbrev pub record_of : Uuid → SlaDb → Option SlaRecord
record_of id s = find_row (λ r. r.ticket_id == id) s.records

record_of-update :
    (id : Uuid) (rs : List SlaRecord) (r r' : SlaRecord)
    → r.ticket_id ≡ r'.ticket_id
    → find_row (λ q. q.ticket_id == id) rs ≡ some r
    → find_row
        (λ q. q.ticket_id == id)
        (update_rows (λ q. q.ticket_id == r'.ticket_id) (record_columns r') rs)
      ≡ some (record_columns r' r)
unfolding find_row update_rows record_columns
record_of-update id [] r r' same h = cc
record_of-update id (q ∷ rs) r r' same h =
    ground
      (arith, find_row_sound (λ q. q.ticket_id == id) (q ∷ rs) r, record_of-update id rs r r' same)

record_first_response-keeps :
    (id : Uuid) (at earlier : Time) (r : SlaRecord) (env : Env) (w : World SlaDb)
    → record_of id w.db ≡ some r
    → r.first_response_at ≡ some earlier
    → (record_first_response id at env w).1.db ≡ w.db
unfolding record_first_response Store.get_record Store.update_record ◌>>=◌
record_first_response-keeps id at earlier r env w h e = ground arith

record_first_response-sets :
    (id : Uuid) (at : Time) (r : SlaRecord) (now_at : ℕ → Time) (uuid_at : ℕ → Uuid)
    (w : World SlaDb)
    → record_of id w.db ≡ some r
    → r.first_response_at ≡ none
    → record_of id (record_first_response id at (calm now_at uuid_at) w).1.db
      ≡ some (record r { first_response_at = some at })
unfolding record_first_response Store.get_record Store.update_record ◌>>=◌
record_first_response-sets id at r now_at uuid_at w h e =
    let back =
      record_of-update id w.db.records r (record r { first_response_at = some at }) refl h in
    ground arith

-- A ticket whose record has no time of the first response gets the time of the first call, if the
-- database refuses nothing, and later calls, whatever it refuses then, change nothing.
record_first_response_once :
    (id : Uuid) (at later : Time) (r : SlaRecord) (now_at : ℕ → Time) (uuid_at : ℕ → Uuid)
    (env : Env) (w : World SlaDb)
    → record_of id w.db ≡ some r
    → r.first_response_at ≡ none
    → let v = (record_first_response id at (calm now_at uuid_at) w).1 in
      (record_of id v.db ≡ some (record r { first_response_at = some at }))
      × ((record_first_response id later env v).1.db ≡ v.db)
record_first_response_once id at later r now_at uuid_at env w h e =
    let first = record_first_response-sets id at r now_at uuid_at w h e in
    (first, record_first_response-keeps id later at _ env _ first refl)

find_row-none :
    {A : Type 0} (p q : A → Bool) (xs : List A) (a : A)
    → find_row p xs ≡ none
    → find_row q xs ≡ some a
    → p a ≡ false
unfolding find_row
find_row-none p q [] a h e = cc
find_row-none p q (x ∷ xs) a h e = ground (arith, find_row-none p q xs a)

-- The policy that is found has the ticket's priority, and the ticket's category or none; it has
-- none only if no policy of that priority has the category.
best_policy_specific :
    (pr : Priority) (c : Uuid) (ps : List Policy) (p : Policy)
    → best_policy pr c ps ≡ some p
    → (has_priority pr p ≡ true)
      × ((is_category c p ≡ true)
          ⊎ ((is_none p.category_id ≡ true)
              × (find_row (λ q. has_priority pr q && is_category c q) ps ≡ none)))
unfolding best_policy
best_policy_specific pr c ps p h =
    elim (Option-cases (find_row (λ q. has_priority pr q && is_category c q) ps)) [
      | inl no_specific ↦
          let sound =
            find_row_sound (λ q. has_priority pr q && is_none q.category_id) ps p (ground arith) in
          (ground arith, inr (ground arith, no_specific))
      | inr (q, e) ↦
          let sound = find_row_sound (λ q. has_priority pr q && is_category c q) ps q e in
          (ground arith, inl (ground arith))
    ]

-- A ticket without a record gets one of the policy that is found, with nothing stamped, if the
-- database refuses nothing.
attach_policy_found :
    (t : Ticket) (p : Policy) (now_at : ℕ → Time) (uuid_at : ℕ → Uuid) (w : World SlaDb)
    → record_of t.id w.db ≡ none
    → best_policy t.priority t.category_id w.db.policies ≡ some p
    → (attach_policy t (calm now_at uuid_at) w).1.db.records ≡ w.db.records ++ new_record t p ∷ []
unfolding attach_policy Store.find_policy Store.create_record ◌>>=◌
attach_policy_found t p now_at uuid_at w h e = ground arith
