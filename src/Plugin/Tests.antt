-- ===== src/Plugin/Tests.antt =====
-- The theorems on plugins at two plugins.
use open_help_desk.Base.{◌≡◌, refl, none, List, [], ◌∷◌}
use open_help_desk.Base.Table.{find_row}
use open_help_desk.Base.Text.{codes}
use open_help_desk.Exec.{ok, err, not_found}
use open_help_desk.Ticket.Store.{Event, ticket_created, ticket_closed, nothing}
use open_help_desk.Plugin.{Manifest, native, new_registry, lookup}
use open_help_desk.Plugin.Refinement.{
  Change, registering, enabling, disabling, run_all, specified_all, Represents, run_all-specified,
}

abbrev chat : Manifest
chat = record {
  id = codes "chat";
  name = [];
  version = [];
  description = [];
  author = [];
  hooks = ticket_closed ∷ ticket_created ∷ [];
  runtime = native;
}

abbrev opened : Event
opened = record {
  type = ticket_created;
  ticket_id = 1;
  actor_id = none;
  payload = nothing;
  occurred_at = 0;
}

abbrev start_up : List Change
start_up =
    registering chat (λ e. err not_found)
    ∷ registering (record chat { id = codes "log" }) (λ e. ok tt)
    ∷ registering chat (λ e. ok tt)
    ∷ disabling (codes "log")
    ∷ enabling (codes "mail")
    ∷ []

run_all-specified_example :
    ((run_all start_up new_registry).0 ≡ (specified_all start_up (λ id. none)).0)
    × Represents (run_all start_up new_registry).1 (specified_all start_up (λ id. none)).1
unfolding lookup find_row
run_all-specified_example = run_all-specified start_up new_registry (λ id. none) (λ id. refl)
