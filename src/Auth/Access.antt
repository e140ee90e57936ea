-- ===== src/Auth/Access.antt =====
-- Who a request acts for: the chain of backend/internal/middleware/auth.go.
use open_help_desk.Base.{
  ℕ, suc, ◌≡◌, refl, ◌↔◌, ◌⊎◌, inl, inr, true, false, Option, none, some, [], ◌∷◌, Uuid, Time,
  arith, Bool-cases, Option-cases, ltb, if◌then◌else◌,
}
use open_help_desk.Base.Table.{find_row}
use open_help_desk.Base.Text.{Text}
use open_help_desk.Exec.{World, calm, ok, pure, try, zoom, now, query, statement, ◌>>=◌}
use open_help_desk.Ticket.{staff}
use open_help_desk.User.{User}
use open_help_desk.User.Store as Users
use open_help_desk.User.Store.{is_live}
use open_help_desk.Auth.{ApiKey, Claims, Actor}
use open_help_desk.Auth.Store
use open_help_desk.Auth.Store.{key_of}
use open_help_desk.Auth.Middleware.{
  AccessDb, Request, session_auth, strip_prefix, api_key_prefix, bearer_prefix, lookup,
  api_key_auth, bearer_auth, authenticate, owner,
}

-- The key has no expiry, or its expiry is not past.
abbrev pub IsUnexpired : Option Time → Time → Type 0
IsUnexpired none at = Unit
IsUnexpired (some expiry) at = ltb expiry at ≡ false

unexpired_before :
    (expiry : Time) (o : Option Time) (at : Time)
    → o ≡ some expiry
    → IsUnexpired o at
    → ltb expiry at ≡ false
unexpired_before expiry none at h k = absurd cc
unexpired_before expiry (some e) at h k = let same : expiry ≡ e = ground arith in rw same k

module _ (hash : Text → Text) (verify : Text → Option Claims) where
  -- The request shows the token of a stored key, and the actor is the key's user.
  abbrev pub IsKeyOwner : Text → AccessDb → Time → Actor → Type 0
  IsKeyOwner authorization s at a =
      (token : Text) × (key : ApiKey) × (u : User) × (strip_prefix api_key_prefix authorization
        ≡ some token)
      × (key_of (hash token) s.auth.api_keys ≡ some key)
      × (find_row (is_live key.user_id) s.users.users ≡ some u)
      × IsUnexpired key.expires_at at
      × (a ≡ owner key u)

  -- The request shows an access token that verifies, and the actor is its client.
  abbrev pub IsClient : Text → Actor → Type 0
  IsClient authorization a =
      (token : Text) × (c : Claims) × (strip_prefix bearer_prefix authorization ≡ some token)
      × (verify token ≡ some c)
      × (a ≡ record {
        user_id = 0;
        role = staff;
        mfa_passed = true;
        client_id = c.client_id;
        scopes = c.scopes;
      })

  module _ (authorization : Text) (now_at : ℕ → Time) (uuid_at : ℕ → Uuid) (w : World AccessDb)
      (a : Actor) where
    api_key_auth_sound :
        (api_key_auth hash authorization (calm now_at uuid_at) w).0 ≡ ok (some a)
        → IsKeyOwner authorization w.db (now_at (suc (suc w.calls))) a
    unfolding api_key_auth lookup Store.get_by_hash Users.get_by_id try zoom now pure query
        statement ◌>>=◌
    api_key_auth_sound h = elim (Option-cases (strip_prefix api_key_prefix authorization)) [
      | inl foreign ↦ absurd (ground arith)
      | inr (token, shown) ↦ elim (Option-cases (key_of (hash token) w.db.auth.api_keys)) [
        | inl unknown ↦ absurd (ground arith)
        | inr (key, known) ↦ elim (Option-cases (find_row (is_live key.user_id) w.db.users.users)) [
          | inl gone ↦ absurd (ground arith)
          | inr (u, live) ↦ elim (Option-cases key.expires_at) [
            | inl never ↦ (token, key, u, shown, known, live, rw never tt, ground arith)
            | inr (expiry, until) ↦
                let late = Bool-cases (ltb expiry (now_at (suc (suc w.calls)))) in
                (token, key, u, shown, known, live, rw until (ground arith), ground arith)
          ]
        ]
      ]
    ]

    api_key_auth_complete :
        IsKeyOwner authorization w.db (now_at (suc (suc w.calls))) a
        → (api_key_auth hash authorization (calm now_at uuid_at) w).0 ≡ ok (some a)
    unfolding api_key_auth lookup Store.get_by_hash Users.get_by_id try zoom now pure query
        statement ◌>>=◌
    api_key_auth_complete (token, key, u, shown, known, live, fresh, same) =
        elim (Option-cases key.expires_at) [
          | inl never ↦ ground arith
          | inr (expiry, until) ↦
              let unexpired = unexpired_before expiry key.expires_at _ until fresh in ground arith
        ]

    api_key_auth_foreign :
        strip_prefix api_key_prefix authorization ≡ none
        → (api_key_auth hash authorization (calm now_at uuid_at) w).0 ≡ ok none
    unfolding api_key_auth pure
    api_key_auth_foreign h = ground arith

    api_key_auth_total :
        (o : Option Actor) × (n : ℕ) × (api_key_auth hash authorization (calm now_at uuid_at) w
          ≡ (ok o, record w { calls = n }))
    unfolding api_key_auth lookup Store.get_by_hash Users.get_by_id try zoom now pure query
        statement ◌>>=◌
    api_key_auth_total = elim (Option-cases (strip_prefix api_key_prefix authorization)) [
      | inl foreign ↦ (none, w.calls, ground arith)
      | inr (token, shown) ↦ elim (Option-cases (key_of (hash token) w.db.auth.api_keys)) [
        | inl unknown ↦ (none, suc w.calls, ground arith)
        | inr (key, known) ↦ elim (Option-cases (find_row (is_live key.user_id) w.db.users.users)) [
          | inl gone ↦ (none, suc (suc w.calls), ground arith)
          | inr (u, live) ↦ elim (Option-cases key.expires_at) [
            | inl never ↦ (some (owner key u), suc (suc w.calls), ground arith)
            | inr (expiry, until) ↦ (
              if ltb expiry (now_at (suc (suc w.calls))) then none else some (owner key u),
              suc (suc (suc w.calls)),
              ground arith,
            )
          ]
        ]
      ]
    ]

  bearer_auth_iff :
      (authorization : Text) (a : Actor)
      → (bearer_auth verify authorization ≡ some a) ↔ IsClient authorization a
  unfolding bearer_auth
  bearer_auth_iff authorization a = (
    λ h. elim (Option-cases (strip_prefix bearer_prefix authorization)) [
      | inl foreign ↦ absurd (ground arith)
      | inr (token, shown) ↦ elim (Option-cases (verify token)) [
        | inl bad ↦ absurd (ground arith)
        | inr (c, good) ↦ (token, c, shown, good, ground arith)
      ]
    ],
    λ (token, c, shown, good, same). ground arith,
  )

  -- A header has one scheme.
  scheme_unique :
      (authorization token : Text)
      → strip_prefix bearer_prefix authorization ≡ some token
      → strip_prefix api_key_prefix authorization ≡ none
  unfolding strip_prefix
  scheme_unique [] token h = refl
  scheme_unique (c ∷ t) token h = ground arith

  -- If the database refuses nothing, the chain of the three layers attaches an actor to a request
  -- exactly if it is the actor of the session, or there is no session actor and the Authorization
  -- header shows the token of a stored API key that is not past its expiry and whose user is not
  -- deleted (the actor is that user, whether disabled or not), or an access token that verifies
  -- (the actor is a staff member without an id).
  pub authenticate_iff :
      (r : Request) (now_at : ℕ → Time) (uuid_at : ℕ → Uuid) (w : World AccessDb) (a : Actor)
      → ((authenticate hash verify r (calm now_at uuid_at) w).0 ≡ ok (some a)) ↔ (
          (session_auth r.cookie ≡ some a)
          ⊎ ((session_auth r.cookie ≡ none)
              × (IsKeyOwner r.authorization w.db (now_at (suc (suc w.calls))) a
                  ⊎ IsClient r.authorization a)))
  unfolding authenticate pure ◌>>=◌
  authenticate_iff r now_at uuid_at w a =
      let (o, n, run) = api_key_auth_total r.authorization now_at uuid_at w a in
      let sound = api_key_auth_sound r.authorization now_at uuid_at w a in
      let complete = api_key_auth_complete r.authorization now_at uuid_at w a in
      let (shows, is_shown) = bearer_auth_iff r.authorization a in
      elim (Option-cases (session_auth r.cookie)) [
        | inr (b, there) ↦ (
          λ h. inl (ground arith),
          elim [ inl same ↦ ground arith | inr (unset, rest) ↦ absurd (ground arith) ],
        )
        | inl missing ↦ (
          λ h. inr (
            missing,
            elim (Option-cases o) [
              | inl unkeyed ↦ inr (shows (ground arith))
              | inr (b, keyed) ↦ inl (sound (ground arith))
            ],
          ),
          elim [
            | inl same ↦ absurd (ground arith)
            | inr (unset, inl key) ↦ let own = complete key in ground arith
            | inr (unset, inr client) ↦
                let (token, c, shown, good, same) = client in
                let foreign = scheme_unique r.authorization token shown in
                let bearer = is_shown client in
                let unkeyed = api_key_auth_foreign r.authorization now_at uuid_at w a foreign in
                ground arith
          ],
        )
      ]
