-- ===== src/Settings/Key.antt =====
-- The keys: backend/internal/domain/admin/settings.go.
use open_help_desk.Base.Text.{Text, codes}

abbrev pub saml_enabled : Text
saml_enabled = codes "saml_enabled"

abbrev pub saml_metadata_url : Text
saml_metadata_url = codes "saml_metadata_url"

abbrev pub saml_cert_pem : Text
saml_cert_pem = codes "saml_cert_pem"

abbrev pub saml_key_pem : Text
saml_key_pem = codes "saml_key_pem"

abbrev pub oidc_enabled : Text
oidc_enabled = codes "oidc_enabled"

abbrev pub oidc_issuer_url : Text
oidc_issuer_url = codes "oidc_issuer_url"

abbrev pub oidc_client_id : Text
oidc_client_id = codes "oidc_client_id"

abbrev pub oidc_client_secret : Text
oidc_client_secret = codes "oidc_client_secret"

abbrev pub oidc_redirect_url : Text
oidc_redirect_url = codes "oidc_redirect_url"

abbrev pub guest_submission_enabled : Text
guest_submission_enabled = codes "guest_submission_enabled"

abbrev pub sla_enabled : Text
sla_enabled = codes "sla_enabled"

abbrev pub mfa_enabled : Text
mfa_enabled = codes "mfa_enabled"

abbrev pub mfa_enforced_roles : Text
mfa_enforced_roles = codes "mfa_enforced_roles"

abbrev pub reopen_window_days : Text
reopen_window_days = codes "reopen_window_days"

abbrev pub reopen_target_status_name : Text
reopen_target_status_name = codes "reopen_target_status_name"

abbrev pub site_name : Text
site_name = codes "site_name"

abbrev pub site_logo_url : Text
site_logo_url = codes "site_logo_url"

abbrev pub allowed_email_domains : Text
allowed_email_domains = codes "allowed_email_domains"

abbrev pub self_signup_enabled : Text
self_signup_enabled = codes "self_signup_enabled"

abbrev pub open_registration_enabled : Text
open_registration_enabled = codes "open_registration_enabled"

abbrev pub auto_assign_group_id : Text
auto_assign_group_id = codes "auto_assign_group_id"

abbrev pub auto_assign_user_ids : Text
auto_assign_user_ids = codes "auto_assign_user_ids"
