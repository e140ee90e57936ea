-- ===== src/Sla/Store.antt =====
-- The tables of SLA policies and records: backend/internal/database/slastore/slastore.go, with the
-- statements of backend/queries/sla.sql. Where a query leaves the order of rows open, the first row
-- of the table comes first.
use open_help_desk.Base.{
  Bool, false, ◌&&◌, Option, none, some, List, [], ◌∷◌, ◌++◌, Uuid, if◌then◌else◌, ◌==◌, is_none,
}
use open_help_desk.Base.Table.{find_row, update_rows, delete_rows}
use open_help_desk.Base.Text.{text_eq}
use open_help_desk.Base.Int.{to_int32}
use open_help_desk.Exec.{Done, Exec, ok, err, database, found, statement, query, write}
use open_help_desk.Ticket.{Priority, priority_text}
use open_help_desk.Sla.{Policy, SlaRecord}

pub record SlaDb : Type 0 where
  pub policies : List Policy
  pub records : List SlaRecord

-- The columns that hold the targets are 32 bits wide.
unfoldable pub policy_row : Policy → Policy
policy_row p = record p {
  response_target_min = to_int32 p.response_target_min;
  resolution_target_min = to_int32 p.resolution_target_min;
}

-- `category_id = $1`, which NULL does not satisfy
abbrev pub is_category : Uuid → Policy → Bool
is_category c p = elim p.category_id [ none ↦ false | some d ↦ d == c ]

abbrev pub has_priority : Priority → Policy → Bool
has_priority pr p = text_eq (priority_text p.priority) (priority_text pr)

unfoldable pub create_policy : Policy → Exec SlaDb Done
unfolding policy_row
create_policy p = write (λ s. record s { policies = s.policies ++ policy_row p ∷ [] })

unfoldable pub get_policy : Uuid → Exec SlaDb Policy
get_policy id = query (λ s. found (find_row (λ p. p.id == id) s.policies))

unfoldable pub update_policy : Policy → Exec SlaDb Done
unfolding policy_row
update_policy p =
    write
      (λ s. record s { policies = update_rows (λ q. q.id == p.id) (λ q. policy_row p) s.policies })

unfoldable pub delete_policy : Uuid → Exec SlaDb Done
delete_policy id = statement λ s.
    if is_none (find_row (λ r. r.policy_id == id) s.records)
    then (ok tt, record s { policies = delete_rows (λ p. p.id == id) s.policies })
    else (err database, s)

-- `ORDER BY category_id NULLS LAST LIMIT 1`: a policy of the category, or else a global one.
unfoldable pub best_policy : Priority → Uuid → List Policy → Option Policy
best_policy pr c ps = elim (find_row (λ p. has_priority pr p && is_category c p) ps) [
  | some p ↦ some p
  | none ↦ find_row (λ p. has_priority pr p && is_none p.category_id) ps
]

unfoldable pub find_policy : Priority → Uuid → Exec SlaDb (Option Policy)
find_policy pr c = query (λ s. ok (best_policy pr c s.policies))

-- The ticket is the primary key of the table.
unfoldable pub create_record : SlaRecord → Exec SlaDb Done
create_record r = statement λ s.
    if is_none (find_row (λ q. q.ticket_id == r.ticket_id) s.records)
    then (ok tt, record s { records = s.records ++ r ∷ [] })
    else (err database, s)

unfoldable pub get_record : Uuid → Exec SlaDb SlaRecord
get_record ticket_id = query (λ s. found (find_row (λ r. r.ticket_id == ticket_id) s.records))

-- The policy of a record is not among the columns that are set.
unfoldable pub record_columns : SlaRecord → SlaRecord → SlaRecord
record_columns r old = record old {
  first_response_at = r.first_response_at;
  resolved_at = r.resolved_at;
  response_breached_at = r.response_breached_at;
  resolution_breached_at = r.resolution_breached_at;
}

unfoldable pub update_record : SlaRecord → Exec SlaDb Done
unfolding record_columns
update_record r = write λ s. record s {
  records = update_rows (λ q. q.ticket_id == r.ticket_id) (record_columns r) s.records;
}
