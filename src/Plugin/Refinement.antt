-- ===== src/Plugin/Refinement.antt =====
-- The registry against a finite map from ids to plugins:
-- backend/internal/domain/plugin/registry.go.
use open_help_desk.Base.{
  ◌≡◌, refl, sym, ap, ◌∙◌, inl, inr, Bool, true, false, Option, none, some, List, [], ◌∷◌, ◌++◌,
  arith, Bool-cases, Option-cases, if◌then◌else◌, is_some,
}
use open_help_desk.Base.Table.{find_row, update_rows}
use open_help_desk.Base.Text.{Text, text_eq, text_eq_iff}
use open_help_desk.Exec.{Done, Result, ok, err, already_registered, not_found}
use open_help_desk.Plugin.{
  Manifest, Handler, LoadedPlugin, Registry, has_id, lookup, set_enabled, register, enable, disable,
}

-- The changes of a registry.
pub data Change : Type 0 where
  registering : Manifest → Handler → Change
  enabling disabling : Text → Change

abbrev pub run_change : Change → Registry → Result Done × Registry
run_change (registering m handler) r = register m handler r
run_change (enabling id) r = enable id r
run_change (disabling id) r = disable id r

-- The results of the changes, and the registry that they leave.
unfoldable pub run_all : List Change → Registry → List (Result Done) × Registry
run_all [] r = ([], r)
run_all (c ∷ cs) r =
    let (result, r') = run_change c r in
    let (results, r'') = run_all cs r' in (result ∷ results, r'')

-- The specification: a map, of which a change sets at most one value.
abbrev pub PluginMap : Type 0
PluginMap = Text → Option LoadedPlugin

abbrev pub assign : Text → LoadedPlugin → PluginMap → PluginMap
assign id p f other = if text_eq id other then some p else f other

abbrev pub switch : Text → Bool → PluginMap → Option LoadedPlugin → Result Done × PluginMap
switch id on f none = (err not_found, f)
switch id on f (some p) = (ok tt, assign id (record p { enabled = on }) f)

abbrev pub insert : Manifest → Handler → PluginMap → Option LoadedPlugin → Result Done × PluginMap
insert m handler f (some p) = (err already_registered, f)
insert m handler f none =
    (ok tt, assign m.id (record { manifest = m; handler = handler; enabled = true }) f)

abbrev pub specified : Change → PluginMap → Result Done × PluginMap
specified (registering m handler) f = insert m handler f (f m.id)
specified (enabling id) f = switch id true f (f id)
specified (disabling id) f = switch id false f (f id)

unfoldable pub specified_all : List Change → PluginMap → List (Result Done) × PluginMap
specified_all [] f = ([], f)
specified_all (c ∷ cs) f =
    let (result, f') = specified c f in
    let (results, f'') = specified_all cs f' in (result ∷ results, f'')

-- The registry has the entries of the map.
abbrev pub Represents : Registry → PluginMap → Type 0
Represents r f = (id : Text) → lookup id r ≡ f id

pub lookup-append :
    (id : Text) (r : Registry) (p : LoadedPlugin)
    → lookup id (r ++ p ∷ [])
      ≡ (if is_some (lookup id r) then lookup id r else if has_id id p then some p else none)
unfolding lookup find_row
lookup-append id [] p = refl
lookup-append id (q ∷ r) p =
    let ih = lookup-append id r p in
    elim (Bool-cases (has_id id q)) [ inl hit ↦ ground arith | inr miss ↦ ground arith ]

switched : Bool → Option LoadedPlugin → Option LoadedPlugin
switched on none = none
switched on (some p) = some (record p { enabled = on })

lookup-update :
    (id other : Text) (on : Bool) (r : Registry)
    → lookup other (update_rows (has_id id) (λ p. record p { enabled = on }) r)
      ≡ (if text_eq id other then switched on (lookup other r) else lookup other r)
unfolding lookup find_row update_rows switched
lookup-update id other on [] = elim (Bool-cases (text_eq id other)) [
  | inl same ↦ ground arith
  | inr apart ↦ ground arith
]
lookup-update id other on (q ∷ r) =
    let ih = lookup-update id other on r in
    let here = text_eq_iff q.manifest.id id in
    let there = text_eq_iff q.manifest.id other in
    let same = text_eq_iff id other in
    elim (Bool-cases (has_id id q)) [
      | inl changed ↦ elim (Bool-cases (has_id other q)) [
        | inl hit ↦ ground arith
        | inr miss ↦ ground arith
      ]
      | inr kept ↦ elim (Bool-cases (has_id other q)) [
        | inl hit ↦ ground arith
        | inr miss ↦ ground arith
      ]
    ]

pub lookup-update_absent :
    (id other : Text) (on : Bool) (r : Registry)
    → lookup other r ≡ none
    → lookup other (update_rows (has_id id) (λ p. record p { enabled = on }) r) ≡ none
unfolding switched
lookup-update_absent id other on r h =
    let changed = lookup-update id other on r in
    elim (Bool-cases (text_eq id other)) [ inl same ↦ ground arith | inr apart ↦ ground arith ]

module _ (r : Registry) (f : PluginMap) (same : Represents r f) where
  register-specified :
      (m : Manifest) (handler : Handler)
      → ((register m handler r).0 ≡ (insert m handler f (f m.id)).0)
        × Represents (register m handler r).1 (insert m handler f (f m.id)).1
  unfolding register
  register-specified m handler =
      let own = same m.id in
      elim (Option-cases (f m.id)) [
        | inl free ↦ (
          ground arith,
          λ id.
              let other = same id in
              let added =
                lookup-append id r (record { manifest = m; handler = handler; enabled = true }) in
              let key = text_eq_iff m.id id in
              elim (Bool-cases (text_eq m.id id)) [
                | inl hit ↦
                    let absent : lookup id r ≡ none =
                      ap (λ x. lookup x r) (sym (key.0 hit)) ∙ own ∙ free in
                    ground arith
                | inr miss ↦ ground arith
              ],
        )
        | inr (p, taken) ↦ (ground arith, λ id. let other = same id in ground arith)
      ]

  switch-specified :
      (id : Text) (on : Bool)
      → ((set_enabled id on r).0 ≡ (switch id on f (f id)).0)
        × Represents (set_enabled id on r).1 (switch id on f (f id)).1
  unfolding switched
  switch-specified id on =
      let own = same id in
      elim (Option-cases (f id)) [
        | inl absent ↦ (ground arith, λ x. let other = same x in ground arith)
        | inr (p, present) ↦ (
          ground arith,
          λ x.
              let other = same x in
              let changed = lookup-update id x on r in
              let key = text_eq_iff id x in
              elim (Bool-cases (text_eq id x)) [
                | inl hit ↦
                    let at_x : lookup x r ≡ some p =
                      ap (λ y. lookup y r) (sym (key.0 hit)) ∙ own ∙ present in
                    ground arith
                | inr miss ↦ ground arith
              ],
        )
      ]

  run_change-specified :
      (c : Change)
      → ((run_change c r).0 ≡ (specified c f).0) × Represents (run_change c r).1 (specified c f).1
  unfolding enable disable
  run_change-specified (registering m handler) = register-specified m handler
  run_change-specified (enabling id) = switch-specified id true
  run_change-specified (disabling id) = switch-specified id false

-- Any sequence of registrations, enablings and disablings returns the results that the map from ids
-- to plugins specifies, and leaves a registry that looks up every id as the map does, if the
-- registry did so at the start.
pub run_all-specified :
    (cs : List Change) (r : Registry) (f : PluginMap)
    → Represents r f
    → ((run_all cs r).0 ≡ (specified_all cs f).0)
      × Represents (run_all cs r).1 (specified_all cs f).1
unfolding run_all specified_all
run_all-specified [] r f same = (refl, same)
run_all-specified (c ∷ cs) r f same =
    let (result, next) = run_change-specified r f same c in
    let (results, last) = run_all-specified cs (run_change c r).1 (specified c f).1 next in
    (cc, last)
