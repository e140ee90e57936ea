-- ===== src/User/Operation.antt =====
-- The operations of backend/internal/domain/user/service.go that write, as data.
use open_help_desk.Base.{List, Uuid}
use open_help_desk.Base.Text.{Text}
use open_help_desk.Exec.{Done, Exec, forget}
use open_help_desk.User.{User}
use open_help_desk.User.Store
use open_help_desk.User.Store.{UserDb}
use open_help_desk.User.Service
use open_help_desk.User.Service.{Libraries, CreateUserInput}

pub data Operation : Type 0 where
  create : CreateUserInput → Operation
  set_password admin_set_password : Uuid → Text → Operation
  enroll_mfa confirm_mfa_enrollment : Uuid → Text → Operation
  upsert_oidc_user : Text → Text → Text → Operation
  upsert_saml_user : Text → Text → Text → List Text → Operation
  soft_delete restore disable enable reset_mfa : Uuid → Operation
  update : User → Operation

-- `SoftDelete`, `Disable`, `Enable` and `ResetMFA` of the service only call the store.
unfoldable pub run : Libraries → Operation → Exec UserDb Done
run lib (create i) = forget (Service.create lib i)
run lib (set_password id plain) = Service.set_password lib id plain
run lib (admin_set_password id plain) = Service.admin_set_password lib id plain
run lib (enroll_mfa id issuer) = forget (Service.enroll_mfa lib id issuer)
run lib (confirm_mfa_enrollment id code) = Service.confirm_mfa_enrollment lib id code
run lib (upsert_oidc_user subject email name) =
    forget (Service.upsert_oidc_user lib subject email name)
run lib (upsert_saml_user subject email name allowed) =
    forget (Service.upsert_saml_user lib subject email name allowed)
run lib (soft_delete id) = Store.soft_delete id
run lib (restore id) = Store.restore id
run lib (disable id) = Store.disable id
run lib (enable id) = Store.enable id
run lib (reset_mfa id) = Store.clear_mfa id
run lib (update u) = Service.update u
