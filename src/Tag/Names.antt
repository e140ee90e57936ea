-- ===== src/Tag/Names.antt =====
-- The names of tags: `Resolve` of backend/internal/domain/tag/service.go finds or creates.
use open_help_desk.Base.{
  ℕ, suc, ◌≡◌, refl, inl, inr, true, false, none, some, List, [], ◌∷◌, ◌++◌, Uuid, Time, arith,
  Bool-cases, Option-cases, is_none,
}
use open_help_desk.Base.Table.{find_row, find_row_sound}
use open_help_desk.Base.Text.{Text, text_eq, text_eq_iff, is_empty}
use open_help_desk.Exec.{
  World, Env, calm, ok, pure, raise, raise_if, try, fresh, now, query, statement, ◌>>=◌,
}
use open_help_desk.Tag.{Tag}
use open_help_desk.Tag.Store
use open_help_desk.Tag.Store.{TagDb, named}
use open_help_desk.Tag.Service.{normal, resolve}

named-append :
    (name : Text) (tags : List Tag) (t : Tag)
    → is_none (named name tags) ≡ true
    → t.name ≡ name
    → named name (tags ++ t ∷ []) ≡ some t
unfolding find_row
named-append name [] t h same = let hit = (text_eq_iff t.name name).1 same in ground arith
named-append name (q ∷ tags) t h same =
    let ih = named-append name tags t in
    elim (Bool-cases (text_eq q.name name)) [ inl hit ↦ ground arith | inr miss ↦ ground arith ]

named_sound : (name : Text) (tags : List Tag) (t : Tag) → named name tags ≡ some t → t.name ≡ name
named_sound name tags t h =
    (text_eq_iff t.name name).0 (find_row_sound (λ (q : Tag). text_eq q.name name) tags t h)

module _ (lower : ℕ → ℕ) where
  resolve_known :
      (v : World TagDb) (t : Tag) (spelling : Text) (now_at : ℕ → Time) (uuid_at : ℕ → Uuid)
      → is_empty (normal lower spelling) ≡ false
      → t.deleted_at ≡ none
      → named (normal lower spelling) v.db.tags ≡ some t
      → (resolve lower spelling (calm now_at uuid_at) v).0 ≡ ok t
  unfolding resolve Store.get_by_name raise_if try pure query statement ◌>>=◌
  resolve_known v t spelling now_at uuid_at filled alive there = ground arith

module _ (lower : ℕ → ℕ) (raw_name : Text) where
  -- When `Resolve` succeeds, the tag that it returns has the trimmed name in lower case, which is not
  -- empty, is not deleted, and is the tag of that name in the table afterwards.
  resolve_tag_ok :
      (env : Env) (w : World TagDb) (t : Tag)
      → (resolve lower raw_name env w).0 ≡ ok t
      → (t.name ≡ normal lower raw_name)
        × (is_empty t.name ≡ false)
        × (t.deleted_at ≡ none)
        × (named t.name (resolve lower raw_name env w).1.db.tags ≡ some t)
  unfolding resolve Store.get_by_name Store.create raise_if try pure raise fresh now query statement
      ◌>>=◌
  resolve_tag_ok env w t h =
      let c = w.calls in
      let name = normal lower raw_name in
      let new : Tag = record {
        id = env.uuid_at (suc c);
        name = name;
        created_at = env.now_at (suc (suc c));
        deleted_at = none;
      } in
      let added = named-append name w.db.tags new in
      let unread = Bool-cases (env.fails_at c) in
      let refused = Bool-cases (env.fails_at (suc (suc (suc c)))) in
      elim (Bool-cases (is_empty (normal lower raw_name))) [
        | inl empty ↦ ground arith
        | inr filled ↦ elim (Option-cases (named (normal lower raw_name) w.db.tags)) [
          | inl missing ↦ let there = added (rw missing refl) refl in ground arith
          | inr (q, there) ↦
              let same = named_sound name w.db.tags q there in
              let deleted = Option-cases q.deleted_at in ground arith
        ]
      ]

  -- After `Resolve` has returned a tag, `Resolve` of any other spelling of the name returns the same
  -- tag, if the database refuses nothing then.
  pub resolve-resolve :
      (env : Env) (w : World TagDb) (t : Tag) (spelling : Text) (now_at : ℕ → Time)
      (uuid_at : ℕ → Uuid)
      → (resolve lower raw_name env w).0 ≡ ok t
      → normal lower spelling ≡ normal lower raw_name
      → (resolve lower spelling (calm now_at uuid_at) (resolve lower raw_name env w).1).0 ≡ ok t
  resolve-resolve env w t spelling now_at uuid_at h same =
      let (name, filled, alive, there) = resolve_tag_ok env w t h in
      resolve_known lower (resolve lower raw_name env w).1 t spelling now_at uuid_at
        (rw same (rw (← name) filled)) alive (rw same (rw (← name) there))
