-- ===== src/Exec/Total.antt =====
-- Actions that return a value in every world: one rule for each way to build an action.
use open_help_desk.Base.{◌≡◌, refl, Bool, true, false, Option, none, some, if◌then◌else◌}
use open_help_desk.Exec.{
  Result, ok, err, Exec, World, Env, pure, try, attempt, zoom, continue, ◌>>=◌,
}

tried {ℓ} :
    {A : Type ℓ} (r : Result A)
    → (o : Option A) × (elim r as (λ x. Result (Option A)) [ ok a ↦ ok (some a) | err e ↦ ok none ]
        ≡ ok o)
tried (ok a) = (some a, refl)
tried (err e) = (none, refl)

-- The action returns a value, whatever the database, the clock and the state are.
pub record Total {ℓ} {S A : Type ℓ} (action : Exec S A) : Type ℓ where
  pub at : (env : Env) (w : World S) → (a : A) × ((action env w).0 ≡ ok a)

module _ {ℓ} {S A : Type ℓ} where
  pub Total-pure : (a : A) → Total (pure {S = S} a)
  unfolding pure
  Total-pure a = record { at = λ env w. (a, refl) }

  pub Total-try : (m : Exec S A) → Total (try m)
  unfolding try
  Total-try m = record { at = λ env w. tried (m env w).0 }

  pub Total-if : (b : Bool) (m n : Exec S A) → Total m → Total n → Total (if b then m else n)
  Total-if true m n h k = h
  Total-if false m n h k = k

module _ {S A : Type 0} where
  pub Total-attempt : (m : Exec S A) → Total (attempt m)
  unfolding attempt
  Total-attempt m = record { at = λ env w. (tt, refl) }

  pub Total-zoom :
      {T : Type 0} (get : S → T) (put : T → S → S) (m : Exec T A) → Total m → Total (zoom get put m)
  unfolding zoom
  Total-zoom get put m h = record {
    at = λ env w. h.at env (record { db = get w.db; calls = w.calls });
  }

module _ {ℓ} {S A B : Type ℓ} where
  continued :
      (r : Result A) (a : A) (k : A → Exec S B) (env : Env) (w : World S)
      → r ≡ ok a
      → Total (k a)
      → (b : B) × ((continue r k env w).0 ≡ ok b)
  continued r a k env w h t = rw h (t.at env w)

  pub Total-bind :
      (m : Exec S A) (k : A → Exec S B) → Total m → ((a : A) → Total (k a)) → Total (m >>= k)
  unfolding ◌>>=◌
  Total-bind m k h t = record {
    at = λ env w.
        let (a, returned) = h.at env w in continued (m env w).0 a k env (m env w).1 returned (t a);
  }

pub ruleset total_rules = (Total-pure, Total-try, Total-if, Total-attempt, Total-zoom, Total-bind)
