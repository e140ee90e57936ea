-- ===== src/Settings/Reading.antt =====
-- What the getters of backend/internal/domain/admin/service.go return, in a world whose database
-- refuses nothing.
use open_help_desk.Base.{
  ℕ, suc, ◌≡◌, inl, inr, false, Option, none, some, [], Uuid, Time, arith, Option-cases,
}
use open_help_desk.Base.Text.{Text}
use open_help_desk.Exec.{
  World, calm, Result, ok, err, lift, try, pure, Result-cases, query, statement, ◌>>=◌,
}
use open_help_desk.Settings.{Json, to_bool, to_text, to_texts}
use open_help_desk.Settings.Store
use open_help_desk.Settings.Store.{SettingsDb, lookup}
use open_help_desk.Settings.Service.{or_else, is_on, text_at, texts_at}

-- The decoded value, or the default if there is none or it does not decode.
abbrev pub decoded : {A : Type 0} → A → (Json → Result A) → Option Json → A
decoded d decode none = d
decoded d decode (some v) = elim (decode v) [ ok a ↦ a | err e ↦ d ]

module _ (now_at : ℕ → Time) (uuid_at : ℕ → Uuid) (w : World SettingsDb) (key : Text) where
  or_else-calm :
      {A : Type 0} (d : A) (decode : Json → Result A)
      → or_else d (Store.get key >>= λ raw. lift (decode raw)) (calm now_at uuid_at) w
        ≡ (ok (decoded d decode (lookup key w.db.settings)), record w { calls = suc w.calls })
  unfolding or_else Store.get query statement ◌>>=◌ try lift pure
  or_else-calm d decode = elim (Option-cases (lookup key w.db.settings)) [
    | inl missing ↦ ground arith
    | inr (v, there) ↦ elim (Result-cases (decode v)) [
      | inl (a, fine) ↦ ground arith
      | inr (e, bad) ↦ ground arith
    ]
  ]

  pub is_on-calm :
      is_on key (calm now_at uuid_at) w
      ≡ (ok (decoded false to_bool (lookup key w.db.settings)), record w { calls = suc w.calls })
  unfolding is_on
  is_on-calm = or_else-calm false to_bool

  pub text_at-calm :
      text_at key (calm now_at uuid_at) w
      ≡ (ok (decoded [] to_text (lookup key w.db.settings)), record w { calls = suc w.calls })
  unfolding text_at
  text_at-calm = or_else-calm [] to_text

  pub texts_at-calm :
      texts_at key (calm now_at uuid_at) w
      ≡ (ok (decoded [] to_texts (lookup key w.db.settings)), record w { calls = suc w.calls })
  unfolding texts_at
  texts_at-calm = or_else-calm [] to_texts
