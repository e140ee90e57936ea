-- ===== src/Plugin.antt =====
-- The registry of plugins: backend/internal/domain/plugin/plugin.go and registry.go. The map of the
-- registry is a list, whose order is that in which `Dispatch` and `List` happen to go through it.
-- Each operation runs under the lock, so that operations follow each other.
pub mod Refinement
pub mod Delivery
mod Tests
use open_help_desk.Base.{
  Bool, true, false, not, ◌||◌, ◌&&◌, Option, none, some, List, [], ◌∷◌, ◌++◌, map, if◌then◌else◌,
  is_some,
}
use open_help_desk.Base.Table.{find_row, update_rows, select_rows}
use open_help_desk.Base.Text.{Text, codes, text_eq}
use open_help_desk.Exec.{Done, Result, ok, err, already_registered, not_found}
use open_help_desk.Ticket.Store.{
  Event, EventType, ticket_created, ticket_assigned, ticket_status_changed, ticket_replied,
  ticket_resolved, ticket_closed, ticket_reopened, ticket_linked,
}

pub data Runtime : Type 0 where
  native wasm : Runtime
  other_runtime : Text → Runtime

pub record Manifest : Type 0 where
  pub id : Text
  pub name : Text
  pub version : Text
  pub description : Text
  pub author : Text
  pub hooks : List EventType
  pub runtime : Runtime

-- What a handler returns for an event; what it does besides is no part of the registry.
abbrev pub Handler : Type 0
Handler = Event → Result Done

pub record LoadedPlugin : Type 0 where
  pub manifest : Manifest
  pub handler : Handler
  pub enabled : Bool

-- The map, keyed by the id of the manifest.
abbrev pub Registry : Type 0
Registry = List LoadedPlugin

abbrev pub new_registry : Registry
new_registry = []

abbrev pub has_id : Text → LoadedPlugin → Bool
has_id id p = text_eq p.manifest.id id

unfoldable pub lookup : Text → Registry → Option LoadedPlugin
unfolding find_row
lookup id r = find_row (has_id id) r

unfoldable pub register : Manifest → Handler → Registry → Result Done × Registry
unfolding lookup
register m handler r =
    if is_some (lookup m.id r)
    then (err already_registered, r)
    else (ok tt, r ++ record { manifest = m; handler = handler; enabled = true } ∷ [])

-- The strings of the event types, by which they are compared.
abbrev pub event_text : EventType → Text
event_text ticket_created = codes "ticket.created"
event_text ticket_assigned = codes "ticket.assigned"
event_text ticket_status_changed = codes "ticket.status_changed"
event_text ticket_replied = codes "ticket.replied"
event_text ticket_resolved = codes "ticket.resolved"
event_text ticket_closed = codes "ticket.closed"
event_text ticket_reopened = codes "ticket.reopened"
event_text ticket_linked = codes "ticket.linked"

unfoldable pub subscribes : List EventType → EventType → Bool
subscribes [] type = false
subscribes (h ∷ hooks) type =
    if text_eq (event_text h) (event_text type) then true else subscribes hooks type

-- The handlers that are called, by the ids of their plugins, and what they return.
unfoldable pub dispatch : Event → Registry → List (Text × Result Done)
unfolding subscribes
dispatch event [] = []
dispatch event (p ∷ ps) =
    let rest = dispatch event ps in
    if not p.enabled || not (subscribes p.manifest.hooks event.type)
    then rest
    else (p.manifest.id, p.handler event) ∷ rest

-- `List`: a manifest and whether it is enabled
unfoldable pub list : Registry → List (Manifest × Bool)
list r = map (λ p. (p.manifest, p.enabled)) r

abbrev pub set_enabled : Text → Bool → Registry → Result Done × Registry
set_enabled id on r =
    if is_some (lookup id r)
    then (ok tt, update_rows (has_id id) (λ p. record p { enabled = on }) r)
    else (err not_found, r)

unfoldable pub enable : Text → Registry → Result Done × Registry
unfolding lookup
enable id r = set_enabled id true r

unfoldable pub disable : Text → Registry → Result Done × Registry
unfolding lookup
disable id r = set_enabled id false r
