-- ===== src/Settings/Oidc.antt =====
-- What `SetOIDCConfig` and `SetSAMLConfig` of backend/internal/domain/admin/service.go store is
-- what the getters return.
use open_help_desk.Base.{ℕ, ◌≡◌, refl, ◌∙◌, some, List, Uuid, Time}
use open_help_desk.Base.Text.{text_eq}
use open_help_desk.Exec.{World, calm, ok, write, statement, ◌>>=◌, ◌>>◌}
use open_help_desk.Settings.{boolean, text, to_bool, to_text}
use open_help_desk.Settings.Key
use open_help_desk.Settings.Store
use open_help_desk.Settings.Store.{
  SettingsDb, Setting, lookup, put, lookup-put_same, lookup-put_other,
}
use open_help_desk.Settings.Reading.{is_on-calm, text_at-calm}
use open_help_desk.Settings.Service.{
  OidcConfig, SamlConfig, set_oidc_config, get_oidc_config, set_saml_config, get_saml_config,
}

abbrev with_oidc : OidcConfig → List Setting → List Setting
with_oidc c rows = put Key.oidc_redirect_url (text c.redirect_url) (
    put Key.oidc_client_secret (text c.client_secret) (
      put Key.oidc_client_id (text c.client_id) (
        put Key.oidc_issuer_url (text c.issuer_url)
          (put Key.oidc_enabled (boolean c.enabled) rows))))

module _ (c : OidcConfig) (rows : List Setting) where
  enabled_stored : lookup Key.oidc_enabled (with_oidc c rows) ≡ some (boolean c.enabled)
  unfolding text_eq
  enabled_stored =
      lookup-put_other _ _ _ _ refl
      ∙ lookup-put_other _ _ _ _ refl
      ∙ lookup-put_other _ _ _ _ refl
      ∙ lookup-put_other _ _ _ _ refl
      ∙ lookup-put_same _ _ _

  issuer_stored : lookup Key.oidc_issuer_url (with_oidc c rows) ≡ some (text c.issuer_url)
  unfolding text_eq
  issuer_stored =
      lookup-put_other _ _ _ _ refl
      ∙ lookup-put_other _ _ _ _ refl
      ∙ lookup-put_other _ _ _ _ refl
      ∙ lookup-put_same _ _ _

  client_stored : lookup Key.oidc_client_id (with_oidc c rows) ≡ some (text c.client_id)
  unfolding text_eq
  client_stored =
      lookup-put_other _ _ _ _ refl ∙ lookup-put_other _ _ _ _ refl ∙ lookup-put_same _ _ _

  secret_stored : lookup Key.oidc_client_secret (with_oidc c rows) ≡ some (text c.client_secret)
  unfolding text_eq
  secret_stored = lookup-put_other _ _ _ _ refl ∙ lookup-put_same _ _ _

  redirect_stored : lookup Key.oidc_redirect_url (with_oidc c rows) ≡ some (text c.redirect_url)
  redirect_stored = lookup-put_same _ _ _

-- If the database refuses nothing, `GetOIDCConfig` after `SetOIDCConfig` returns the configuration
-- that was set, whatever was stored before.
pub get_oidc_config-set_oidc_config :
    (now_at : ℕ → Time) (uuid_at : ℕ → Uuid) (c : OidcConfig) (w : World SettingsDb)
    → ((set_oidc_config c >> get_oidc_config) (calm now_at uuid_at) w).0 ≡ ok c
unfolding set_oidc_config get_oidc_config ◌>>=◌ Store.set write statement to_bool to_text
get_oidc_config-set_oidc_config now_at uuid_at c w = rw is_on-calm (
    rw (enabled_stored c w.db.settings) (
      rw text_at-calm (
        rw (issuer_stored c w.db.settings) (
          rw text_at-calm (
            rw (client_stored c w.db.settings) (
              rw text_at-calm (
                rw (secret_stored c w.db.settings)
                  (rw text_at-calm (rw (redirect_stored c w.db.settings) refl)))))))))

abbrev with_saml : SamlConfig → List Setting → List Setting
with_saml c rows =
    put Key.saml_key_pem (text c.key_pem) (
      put Key.saml_cert_pem (text c.cert_pem)
        (put Key.saml_metadata_url (text c.metadata_url) rows))

-- If the database refuses nothing, `GetSAMLConfig` after `SetSAMLConfig` returns the configuration
-- that was set, whatever was stored before.
get_saml_config-set_saml_config :
    (now_at : ℕ → Time) (uuid_at : ℕ → Uuid) (c : SamlConfig) (w : World SettingsDb)
    → ((set_saml_config c >> get_saml_config) (calm now_at uuid_at) w).0 ≡ ok c
unfolding set_saml_config get_saml_config ◌>>=◌ Store.set write statement to_text text_eq
get_saml_config-set_saml_config now_at uuid_at c w =
    let rows = with_saml c w.db.settings in
    let metadata : lookup Key.saml_metadata_url rows ≡ some (text c.metadata_url) =
      lookup-put_other _ _ _ _ refl ∙ lookup-put_other _ _ _ _ refl ∙ lookup-put_same _ _ _ in
    let cert : lookup Key.saml_cert_pem rows ≡ some (text c.cert_pem) =
      lookup-put_other _ _ _ _ refl ∙ lookup-put_same _ _ _ in
    let key : lookup Key.saml_key_pem rows ≡ some (text c.key_pem) = lookup-put_same _ _ _ in
    rw text_at-calm (rw metadata (rw text_at-calm (rw cert (rw text_at-calm (rw key refl)))))
