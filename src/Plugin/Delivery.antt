-- ===== src/Plugin/Delivery.antt =====
-- Who receives an event: `Dispatch` of backend/internal/domain/plugin/registry.go.
use open_help_desk.Base.{ℕ, ◌≡◌, Bool, ◌&&◌, Option, none, some, [], ◌∷◌, if◌then◌else◌}
use open_help_desk.Base.Text.{Text, text_eq}
use open_help_desk.Exec.{Done, Result}
use open_help_desk.Ticket.Store.{Event}
use open_help_desk.Plugin.{LoadedPlugin, Registry, lookup, subscribes}

-- No id stands twice in the list, as in a map.
abbrev pub IsKeyed : Registry → Type 0
IsKeyed [] = Unit
IsKeyed (p ∷ ps) = (lookup p.manifest.id ps ≡ none) × IsKeyed ps

-- How often a plugin is due an event.
abbrev pub due : Event → Option LoadedPlugin → ℕ
due event none = 0
due event (some p) = if p.enabled && subscribes p.manifest.hooks event.type then 1 else 0

abbrev pub is_call : Text → Text × Result Done → Bool
is_call id call = text_eq call.0 id
