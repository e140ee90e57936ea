-- ===== src/Settings.antt =====
-- The keys of the settings table, and what Go's `json.Unmarshal` makes of a JSON value:
-- backend/internal/domain/admin/settings.go.
pub mod Key
pub mod Store
pub mod Service
pub mod Oidc
pub mod Reading
pub mod Required
mod Tests
use open_help_desk.Base.{
  ℕ, ◌^◌, Bool, true, false, ◌&&◌, Option, none, some, List, [], ◌∷◌, Uuid, ltb, if◌then◌else◌,
}
use open_help_desk.Base.Int.{ℤ}
use open_help_desk.Base.Text.{Text, codes}
use open_help_desk.Exec.{Result, ok, err, parse_failed}

-- A value of a JSONB column. `decimal` is a number that is no integer and `object` an object, both
-- as their texts, which no getter looks into.
mutual
  pub data Json : Type 0 where
    null : Json
    boolean : Bool → Json
    integer : ℤ → Json
    decimal : Text → Json
    text : Text → Json
    array : JsonList → Json
    object : Text → Json

  pub data JsonList : Type 0 where
    empty : JsonList
    item : Json → JsonList → JsonList

-- A number fits a Go `int` of 64 bits.
abbrev pub is_int : ℤ → Bool
is_int (ℤ.pos n) = ltb n (2 ^ 63)
is_int (ℤ.negsuc n) = ltb n (2 ^ 63)

-- `json.Unmarshal(raw, &v)` for a Boolean, an integer and a string; a null leaves the zero value.
unfoldable pub to_bool : Json → Result Bool
to_bool null = ok false
to_bool (boolean b) = ok b
to_bool _ = err parse_failed

unfoldable pub to_int : Json → Result ℤ
to_int null = ok (ℤ.pos 0)
to_int (integer n) = if is_int n then ok n else err parse_failed
to_int _ = err parse_failed

unfoldable pub to_text : Json → Result Text
to_text null = ok []
to_text (text t) = ok t
to_text _ = err parse_failed

abbrev pub cons_text : Result Text → Result (List Text) → Result (List Text)
cons_text (ok t) (ok ts) = ok (t ∷ ts)
cons_text (ok t) (err e) = err e
cons_text (err e) ts = err e

unfoldable pub items_to_texts : JsonList → Result (List Text)
unfolding to_text
items_to_texts empty = ok []
items_to_texts (item v vs) = cons_text (to_text v) (items_to_texts vs)

unfoldable pub to_texts : Json → Result (List Text)
unfolding items_to_texts
to_texts null = ok []
to_texts (array vs) = items_to_texts vs
to_texts _ = err parse_failed
