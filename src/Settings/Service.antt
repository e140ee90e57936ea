-- ===== src/Settings/Service.antt =====
-- Typed access to the settings: backend/internal/domain/admin/service.go. The ids are read by
-- `parse_uuid`, which stands for `uuid.Parse` of github.com/google/uuid.
use open_help_desk.Base.{
  Bool, true, false, not, ◌&&◌, Option, none, some, List, [], ◌∷◌, Uuid, if◌then◌else◌,
}
use open_help_desk.Base.Int.{ℤ}
use open_help_desk.Base.Text.{Text, codes, text_eq, is_empty}
use open_help_desk.Exec.{Done, Exec, pure, lift, try, ◌>>=◌, ◌>>◌}
use open_help_desk.Settings.{Json, boolean, integer, text, to_bool, to_int, to_text, to_texts}
use open_help_desk.Settings.Key
use open_help_desk.Settings.Store
use open_help_desk.Settings.Store.{SettingsDb, Setting}

unfoldable pub get_bool : Text → Exec SettingsDb Bool
unfolding to_bool
get_bool key = do raw ← Store.get key; lift (to_bool raw)

unfoldable pub get_int : Text → Exec SettingsDb ℤ
unfolding to_int
get_int key = do raw ← Store.get key; lift (to_int raw)

unfoldable pub get_string : Text → Exec SettingsDb Text
unfolding to_text
get_string key = do raw ← Store.get key; lift (to_text raw)

unfoldable pub set_bool : Text → Bool → Exec SettingsDb Done
set_bool key v = Store.set key (boolean v)

unfoldable pub set_int : Text → ℤ → Exec SettingsDb Done
set_int key v = Store.set key (integer v)

unfoldable pub set_string : Text → Text → Exec SettingsDb Done
set_string key v = Store.set key (text v)

unfoldable pub set_raw : Text → Json → Exec SettingsDb Done
set_raw key value = Store.set key value

unfoldable pub list_all : Exec SettingsDb (List Setting)
list_all = Store.list

-- `v, err := …; if err != nil { return d }`
unfoldable pub or_else : {A : Type 0} → A → Exec SettingsDb A → Exec SettingsDb A
or_else d m = do r ← try m; pure (elim r [ none ↦ d | some v ↦ v ])

unfoldable pub is_on : Text → Exec SettingsDb Bool
unfolding or_else get_bool
is_on key = or_else false (get_bool key)

unfoldable pub text_at : Text → Exec SettingsDb Text
unfolding or_else get_string
text_at key = or_else [] (get_string key)

unfoldable pub reopen_window_days : Exec SettingsDb ℤ
unfolding or_else get_int
reopen_window_days = or_else (ℤ.pos 7) (get_int Key.reopen_window_days)

unfoldable pub saml_enabled : Exec SettingsDb Bool
unfolding is_on
saml_enabled = is_on Key.saml_enabled

pub record SamlConfig : Type 0 where
  pub metadata_url : Text
  pub cert_pem : Text
  pub key_pem : Text

unfoldable pub get_saml_config : Exec SettingsDb SamlConfig
unfolding text_at
get_saml_config = do
  metadata_url ← text_at Key.saml_metadata_url
  cert_pem ← text_at Key.saml_cert_pem
  key_pem ← text_at Key.saml_key_pem
  pure (record { metadata_url = metadata_url; cert_pem = cert_pem; key_pem = key_pem })

pub record OidcConfig : Type 0 where
  pub enabled : Bool
  pub issuer_url : Text
  pub client_id : Text
  pub client_secret : Text
  pub redirect_url : Text

unfoldable pub get_oidc_config : Exec SettingsDb OidcConfig
unfolding is_on text_at
get_oidc_config = do
  enabled ← is_on Key.oidc_enabled
  issuer_url ← text_at Key.oidc_issuer_url
  client_id ← text_at Key.oidc_client_id
  client_secret ← text_at Key.oidc_client_secret
  redirect_url ← text_at Key.oidc_redirect_url
  pure (record {
    enabled = enabled;
    issuer_url = issuer_url;
    client_id = client_id;
    client_secret = client_secret;
    redirect_url = redirect_url;
  })

unfoldable pub saml_configured : Exec SettingsDb Bool
unfolding get_saml_config
saml_configured = do
  c ← get_saml_config
  pure (not (is_empty c.metadata_url) && not (is_empty c.cert_pem) && not (is_empty c.key_pem))

unfoldable pub oidc_configured : Exec SettingsDb Bool
unfolding get_oidc_config
oidc_configured = do
  c ← get_oidc_config
  pure (not (is_empty c.issuer_url) && not (is_empty c.client_id) && not (is_empty c.client_secret))

unfoldable pub set_oidc_config : OidcConfig → Exec SettingsDb Done
unfolding set_bool set_string
set_oidc_config c = do
  set_bool Key.oidc_enabled c.enabled
  set_string Key.oidc_issuer_url c.issuer_url
  set_string Key.oidc_client_id c.client_id
  set_string Key.oidc_client_secret c.client_secret
  set_string Key.oidc_redirect_url c.redirect_url

unfoldable pub set_saml_config : SamlConfig → Exec SettingsDb Done
unfolding set_string
set_saml_config c = do
  set_string Key.saml_metadata_url c.metadata_url
  set_string Key.saml_cert_pem c.cert_pem
  set_string Key.saml_key_pem c.key_pem

unfoldable pub guest_submission_enabled : Exec SettingsDb Bool
unfolding is_on
guest_submission_enabled = is_on Key.guest_submission_enabled

unfoldable pub sla_enabled : Exec SettingsDb Bool
unfolding is_on
sla_enabled = is_on Key.sla_enabled

unfoldable pub mfa_enabled : Exec SettingsDb Bool
unfolding is_on
mfa_enabled = is_on Key.mfa_enabled

-- A list of strings, or nil
unfoldable pub texts_at : Text → Exec SettingsDb (List Text)
unfolding or_else to_texts
texts_at key = or_else [] do raw ← Store.get key; lift (to_texts raw)

unfoldable pub mfa_enforced_roles : Exec SettingsDb (List Text)
unfolding texts_at
mfa_enforced_roles = texts_at Key.mfa_enforced_roles

unfoldable pub is_among : Text → List Text → Bool
is_among role [] = false
is_among role (r ∷ rs) = if text_eq r role then true else is_among role rs

unfoldable pub mfa_required_for : Text → Exec SettingsDb Bool
unfolding mfa_enabled mfa_enforced_roles is_among
mfa_required_for role = do
  on ← mfa_enabled
  if not on then pure false else mfa_enforced_roles >>= λ roles. pure (is_among role roles)

unfoldable pub reopen_target_status_name : Exec SettingsDb Text
unfolding or_else get_string
reopen_target_status_name = or_else (codes "New") (get_string Key.reopen_target_status_name)

unfoldable pub site_name : Exec SettingsDb Text
unfolding text_at
site_name = do v ← text_at Key.site_name; pure (if is_empty v then codes "Go Help Desk" else v)

unfoldable pub site_logo_url : Exec SettingsDb Text
unfolding text_at
site_logo_url = text_at Key.site_logo_url

unfoldable pub allowed_email_domains : Exec SettingsDb (List Text)
unfolding texts_at
allowed_email_domains = texts_at Key.allowed_email_domains

unfoldable pub self_signup_enabled : Exec SettingsDb Bool
unfolding is_on
self_signup_enabled = is_on Key.self_signup_enabled

unfoldable pub open_registration_enabled : Exec SettingsDb Bool
unfolding is_on
open_registration_enabled = is_on Key.open_registration_enabled

module _ (parse_uuid : Text → Option Uuid) where
  unfoldable pub auto_assign_group_id : Exec SettingsDb (Option Uuid)
  unfolding text_at
  auto_assign_group_id = do
    v ← text_at Key.auto_assign_group_id
    pure (if is_empty v then none else parse_uuid v)

  abbrev pub cons_parsed : Option Uuid → List Uuid → List Uuid
  cons_parsed none ids = ids
  cons_parsed (some id) ids = id ∷ ids

  unfoldable pub parse_all : List Text → List Uuid
  parse_all [] = []
  parse_all (t ∷ ts) = cons_parsed (parse_uuid t) (parse_all ts)

  unfoldable pub auto_assign_user_ids : Exec SettingsDb (List Uuid)
  unfolding texts_at parse_all
  auto_assign_user_ids = do texts ← texts_at Key.auto_assign_user_ids; pure (parse_all texts)
