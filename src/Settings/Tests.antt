-- ===== src/Settings/Tests.antt =====
-- The theorems on settings at a small table.
use open_help_desk.Base.{ℕ, ◌≡◌, refl, ◌↔◌, Bool, true, some, [], ◌∷◌, Uuid, Time}
use open_help_desk.Base.Int.{ℤ}
use open_help_desk.Base.Text.{codes, text_eq}
use open_help_desk.Exec.{World, calm, ok, statement, query, ◌>>=◌, ◌>>◌}
use open_help_desk.Settings.{boolean, text, array, object, null, item, empty, to_int}
use open_help_desk.Settings.Key
use open_help_desk.Settings.Store
use open_help_desk.Settings.Store.{SettingsDb, lookup}
use open_help_desk.Settings.Required.{IsListed, mfa_required_for_iff}
use open_help_desk.Settings.Oidc.{get_oidc_config-set_oidc_config}
use open_help_desk.Settings.Service.{
  OidcConfig, get_oidc_config, set_oidc_config, mfa_required_for, reopen_window_days, site_name,
}

abbrev clock : ℕ → Time
clock n = n

abbrev ids : ℕ → Uuid
ids n = n

abbrev desk : World SettingsDb
desk = record {
  db = record {
    settings =
        record { key = Key.mfa_enabled; value = boolean true }
        ∷ record {
          key = Key.mfa_enforced_roles;
          value = array (item (text (codes "admin")) (item null empty));
        }
        ∷ record { key = Key.site_name; value = text [] }
        ∷ record { key = Key.reopen_window_days; value = object [] }
        ∷ [];
  };
  calls = 0;
}

window_default : (reopen_window_days (calm clock ids) desk).0 ≡ ok (ℤ.pos 7)
unfolding reopen_window_days ◌>>=◌ Store.get query statement lookup text_eq to_int
window_default = refl

name_default : (site_name (calm clock ids) desk).0 ≡ ok (codes "Go Help Desk")
unfolding site_name ◌>>=◌ Store.get query statement lookup text_eq
name_default = refl

mfa_required_for_iff_example :
    (b : Bool) × ((mfa_required_for (codes "admin") (calm clock ids) desk).0 ≡ ok b)
    × ((b ≡ true) ↔ (
        (lookup Key.mfa_enabled desk.db.settings ≡ some (boolean true))
        × IsListed (codes "admin") (lookup Key.mfa_enforced_roles desk.db.settings)))
mfa_required_for_iff_example = mfa_required_for_iff clock ids desk (codes "admin")

abbrev provider : OidcConfig
provider = record {
  enabled = true;
  issuer_url = codes "https://id";
  client_id = codes "desk";
  client_secret = codes "s";
  redirect_url = codes "https://desk/cb";
}

get_oidc_config-set_oidc_config_example :
    ((set_oidc_config provider >> get_oidc_config) (calm clock ids) desk).0 ≡ ok provider
get_oidc_config-set_oidc_config_example = get_oidc_config-set_oidc_config clock ids provider desk
