-- ===== src/Auth/Store.antt =====
-- The tables of API keys, OAuth clients and webhooks:
-- backend/internal/database/authstore/authstore.go, with the statements of backend/queries/auth.sql.
-- `name_le` is the order of the database's collation.
use open_help_desk.Base.{
  Bool, ◌||◌, Option, none, some, List, [], ◌∷◌, ◌++◌, Uuid, Time, if◌then◌else◌, ◌==◌, is_none,
  leb,
}
use open_help_desk.Base.Order.{sort_by}
use open_help_desk.Base.Table.{find_row, select_rows, update_rows, delete_rows}
use open_help_desk.Base.Text.{Text, text_eq}
use open_help_desk.Exec.{Done, Exec, ok, err, database, found, statement, query, write}
use open_help_desk.Auth.{ApiKey, OauthClient}

pub record WebhookConfig : Type 0 where
  pub id : Uuid
  pub url : Text
  pub events : List Text
  pub secret : Text
  pub enabled : Bool
  pub created_at : Time

pub record AuthDb : Type 0 where
  pub api_keys : List ApiKey
  pub clients : List OauthClient
  pub webhooks : List WebhookConfig

-- The id and the hash are unique; `last_used_at` starts as NULL.
unfoldable pub create_api_key : ApiKey → Exec AuthDb Done
create_api_key k = statement λ s.
    if is_none (find_row (λ q. (q.id == k.id) || text_eq q.hashed_token k.hashed_token) s.api_keys)
    then (ok tt, record s { api_keys = s.api_keys ++ record k { last_used_at = none } ∷ [] })
    else (err database, s)

abbrev pub key_of : Text → List ApiKey → Option ApiKey
key_of hashed keys = find_row (λ (k : ApiKey). text_eq k.hashed_token hashed) keys

unfoldable pub get_by_hash : Text → Exec AuthDb ApiKey
get_by_hash hashed = query (λ s. found (key_of hashed s.api_keys))

unfoldable pub update_last_used : Uuid → Time → Exec AuthDb Done
update_last_used id at = write λ s. record s {
  api_keys = update_rows (λ k. k.id == id) (λ k. record k { last_used_at = some at }) s.api_keys;
}

unfoldable pub delete_api_key : Uuid → Exec AuthDb Done
delete_api_key id = write (λ s. record s { api_keys = delete_rows (λ k. k.id == id) s.api_keys })

-- `ORDER BY created_at DESC`
unfoldable pub list_by_user : Uuid → Exec AuthDb (List ApiKey)
list_by_user user_id = query λ s. ok (
    sort_by (λ (a b : ApiKey). leb b.created_at a.created_at)
      (select_rows (λ k. k.user_id == user_id) s.api_keys))

unfoldable pub create_oauth_client : OauthClient → Exec AuthDb Done
create_oauth_client c = statement λ s.
    if is_none (find_row (λ q. (q.id == c.id) || text_eq q.client_id c.client_id) s.clients)
    then (ok tt, record s { clients = s.clients ++ c ∷ [] })
    else (err database, s)

unfoldable pub get_by_client_id : Text → Exec AuthDb OauthClient
get_by_client_id client_id =
    query (λ s. found (find_row (λ c. text_eq c.client_id client_id) s.clients))

unfoldable pub delete_oauth_client : Uuid → Exec AuthDb Done
delete_oauth_client id = write (λ s. record s { clients = delete_rows (λ c. c.id == id) s.clients })

unfoldable pub list_oauth_clients : (Text → Text → Bool) → Exec AuthDb (List OauthClient)
list_oauth_clients name_le =
    query (λ s. ok (sort_by (λ (a b : OauthClient). name_le a.name b.name) s.clients))

unfoldable pub create_webhook : WebhookConfig → Exec AuthDb Done
create_webhook h = statement λ s.
    if is_none (find_row (λ q. q.id == h.id) s.webhooks)
    then (ok tt, record s { webhooks = s.webhooks ++ h ∷ [] })
    else (err database, s)

unfoldable pub get_webhook : Uuid → Exec AuthDb WebhookConfig
get_webhook id = query (λ s. found (find_row (λ h. h.id == id) s.webhooks))

unfoldable pub update_webhook : WebhookConfig → Exec AuthDb Done
update_webhook h = write λ s. record s {
  webhooks =
      update_rows (λ q. q.id == h.id)
        (λ q. record q { url = h.url; events = h.events; secret = h.secret; enabled = h.enabled })
        s.webhooks;
}

unfoldable pub delete_webhook : Uuid → Exec AuthDb Done
delete_webhook id = write (λ s. record s { webhooks = delete_rows (λ h. h.id == id) s.webhooks })

unfoldable pub list_enabled_webhooks : Exec AuthDb (List WebhookConfig)
list_enabled_webhooks = query λ s. ok (
    sort_by (λ (a b : WebhookConfig). leb a.created_at b.created_at)
      (select_rows (λ h. h.enabled) s.webhooks))
