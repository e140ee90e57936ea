-- ===== src/Group/Tests.antt =====
-- The theorem on scopes at two groups.
use open_help_desk.Base.{ℕ, ◌≡◌, ◌↔◌, Bool, not, none, some, List, [], ◌∷◌, Uuid, Time}
use open_help_desk.Base.Order.{IsRow}
use open_help_desk.Base.Text.{Text, codes, text_lt}
use open_help_desk.Exec.{World, calm, ok}
use open_help_desk.Group.{Group}
use open_help_desk.Group.Store.{GroupDb}
use open_help_desk.Group.Service.{get_groups_for_ticket}
use open_help_desk.Group.Scopes.{IsResponsible, get_groups_for_ticket_iff}

abbrev clock : ℕ → Time
clock n = n

abbrev ids : ℕ → Uuid
ids n = n

abbrev name_le : Text → Text → Bool
name_le a b = not (text_lt b a)

abbrev hardware : Group
hardware = record { id = 1; name = codes "Hardware"; description = [] }

abbrev desk : World GroupDb
desk = record {
  db = record {
    groups = record { id = 2; name = codes "Network"; description = [] } ∷ hardware ∷ [];
    members = record { group_id = 1; user_id = 7 } ∷ [];
    scopes =
        record { group_id = 1; category_id = 5; type_id = none }
        ∷ record { group_id = 2; category_id = 5; type_id = some 6 }
        ∷ [];
  };
  calls = 0;
}

get_groups_for_ticket_iff_example :
    (gs : List Group) × ((get_groups_for_ticket name_le 5 none (calm clock ids) desk).0 ≡ ok gs)
    × (IsRow hardware gs ↔ (IsRow hardware desk.db.groups × IsResponsible hardware 5 none desk.db))
get_groups_for_ticket_iff_example = get_groups_for_ticket_iff name_le 5 none clock ids desk hardware
