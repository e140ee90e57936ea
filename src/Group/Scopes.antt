-- ===== src/Group/Scopes.antt =====
-- The SQL of scopes against the rule `IsInScope` of backend/internal/domain/group/group.go.
use open_help_desk.Base.{
  ℕ, ◌≡◌, ◌↔◌, refl, Bool, true, ◌&&◌, Option, List, Uuid, Time, arith, ◌==◌, is_some,
}
use open_help_desk.Base.Table.{find_row, select_rows}
use open_help_desk.Base.Order.{IsRow, IsRow-sort_by, IsRow-select_rows, IsRow-find_row}
use open_help_desk.Base.Text.{Text}
use open_help_desk.Exec.{World, calm, ok, query, statement}
use open_help_desk.Group.{Group, GroupScope, is_in_scope}
use open_help_desk.Group.Store.{GroupDb, covers, joined, by_name}
use open_help_desk.Group.Service.{get_groups_for_ticket}

covers-is_in_scope :
    (c : GroupScope) (category_id : Uuid) (type_id : Option Uuid)
    → covers category_id type_id c ≡ is_in_scope c category_id type_id
unfolding is_in_scope
covers-is_in_scope c category_id type_id = ground arith

-- The group has a scope that covers the classification by the rule.
abbrev pub IsResponsible : Group → Uuid → Option Uuid → GroupDb → Type 0
IsResponsible g category_id type_id s =
    (c : GroupScope) × IsRow c s.scopes
    × (c.group_id ≡ g.id)
    × (is_in_scope c category_id type_id ≡ true)

module _ (name_le : Text → Text → Bool) (category_id : Uuid) (type_id : Option Uuid) where
  IsRow-joined :
      (s : GroupDb) (g : Group)
      → IsRow g (joined name_le (covers category_id type_id) s)
        ↔ (IsRow g s.groups × IsResponsible g category_id type_id s)
  IsRow-joined s g =
      let test : Group → Bool = λ g'.
        is_some (find_row (λ c. (c.group_id == g'.id) && covers category_id type_id c) s.scopes) in
      let sorted = IsRow-sort_by (by_name name_le) (select_rows test s.groups) g in
      let chosen = IsRow-select_rows test s.groups g in
      let scope =
        IsRow-find_row (λ c. (c.group_id == g.id) && covers category_id type_id c) s.scopes in
      (
        λ h.
            let (row, hit) = chosen.0 (sorted.0 h) in
            let (c, at, covered) = scope.0 hit in
            let same = covers-is_in_scope c category_id type_id in
            (row, (c, at, ground arith, ground arith)),
        λ h.
            let (c, at, group, covered) = h.1 in
            let same = covers-is_in_scope c category_id type_id in
            sorted.1 (chosen.1 (h.0, scope.1 (c, at, ground arith))),
      )

  -- The groups that are found for a ticket, if the database refuses nothing, are those and only
  -- those that have a scope which covers the ticket's category and type by the rule `IsInScope`.
  pub get_groups_for_ticket_iff :
      (now_at : ℕ → Time) (uuid_at : ℕ → Uuid) (w : World GroupDb) (g : Group)
      → (gs : List Group) × ((get_groups_for_ticket name_le category_id type_id
            (calm now_at uuid_at)
            w).0
          ≡ ok gs)
        × (IsRow g gs ↔ (IsRow g w.db.groups × IsResponsible g category_id type_id w.db))
  unfolding get_groups_for_ticket query statement
  get_groups_for_ticket_iff now_at uuid_at w g =
      (joined name_le (covers category_id type_id) w.db, refl, IsRow-joined w.db g)
