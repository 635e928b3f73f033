-- ===== src/Base/Effects.antt =====
-- Operations that change a state and may throw. A throw undoes nothing by itself: the state that was
-- reached comes back beside the error.
use Prim.Native.String.{String}
use mathlib.Core.Path.{◌≡◌, refl, ap}

pub data Failure : Type 0 where
  write_failed : Failure
  error : String → Failure

pub data Result {ℓ} (A : Type ℓ) : Type ℓ where
  ok : A → Result A
  thrown : Failure → Result A

-- The value that was returned, or the one given.
abbrev pub value_or {ℓ} : {A : Type ℓ} → A → Result A → A
value_or a (ok b) = b
value_or a (thrown e) = a

abbrev pub Action {ℓ} : Type ℓ → Type ℓ → Type ℓ
Action St A = St → Result A × St

module _ {ℓ} {St A : Type ℓ} where
  abbrev pub pure : A → Action St A
  pure a st = (ok a, st)

  abbrev pub throw : Failure → Action St A
  throw e st = (thrown e, st)

  -- A look at the state.
  abbrev pub gets : (St → A) → Action St A
  gets look st = (ok (look st), st)

  -- The value of a computation that only returns.
  pub pure-eq-ok : (a b : A) (st t : St) → pure a st ≡ (ok b, t) → a ≡ b
  pure-eq-ok a b st t h = ap (λ r. value_or a r.0) h

module _ {ℓ} {St A B : Type ℓ} where
  -- What follows on an outcome: the next operation, or nothing after a throw.
  abbrev pub proceed : Result A × St → (A → Action St B) → Result B × St
  proceed (ok a, st) next = next a st
  proceed (thrown e, st) next = (thrown e, st)

  infixl 5 ◌>>=◌ ◌>>◌
  unfoldable pub ◌>>=◌ : Action St A → (A → Action St B) → Action St B
  ◌>>=◌ first next st = proceed (first st) next

  abbrev pub ◌>>◌ : Action St A → Action St B → Action St B
  first >> second = first >>= λ _. second

  -- A look at the state goes on with what was seen.
  pub gets-bind :
      (look : St → A) (next : A → Action St B) (st : St)
      → (gets look >>= next) st ≡ next (look st) st
  unfolding ◌>>=◌
  gets-bind look next st = refl

  -- Two operations in a row returned only if both did.
  pub bind-eq-ok :
      (first : Action St A) (next : A → Action St B) (st : St) {b : B} {t : St}
      → (first >>= next) st ≡ (ok b, t)
      → (a : A) × (u : St) × (first st ≡ (ok a, u)) × (next a u ≡ (ok b, t))
  unfolding ◌>>=◌
  bind-eq-ok first next st {b} {t} h = split (first st) h
    where
      split :
          (q : Result A × St)
          → proceed q next ≡ (ok b, t)
          → (a : A) × (u : St) × (q ≡ (ok a, u)) × (next a u ≡ (ok b, t))
      split (ok a, u) h = (a, u, refl, h)
      split (thrown e, u) h = cc

-- Wherever `Inv` holds before the operation it holds after it, also after a throw.
pub record Preserves {ℓ} {St A : Type ℓ} (Inv : St → Type ℓ) (op : Action St A) : Type ℓ where
  pub afterwards : (st : St) → Inv st → Inv (op st).1

module _ {ℓ} {St A : Type ℓ} {Inv : St → Type ℓ} where
  pub Preserves-pure : (a : A) → Preserves Inv (pure a)
  Preserves-pure a = record { afterwards = λ st holds. holds }

  pub Preserves-gets : (look : St → A) → Preserves Inv (gets look)
  Preserves-gets look = record { afterwards = λ st holds. holds }

module _ {ℓ} {St A B : Type ℓ} {Inv : St → Type ℓ} where
  pub Preserves-bind :
      (first : Action St A) (next : A → Action St B)
      → Preserves Inv first
      → ((a : A) → Preserves Inv (next a))
      → Preserves Inv (first >>= next)
  unfolding ◌>>=◌
  Preserves-bind first next kept others = record {
    afterwards = λ st holds. after (first st) (kept.afterwards st holds);
  }
    where
      after : (q : Result A × St) → Inv q.1 → Inv (proceed q next).1
      after (ok a, u) holds = (others a).afterwards u holds
      after (thrown e, u) holds = holds

pub ruleset preserves_rules = (Preserves-pure, Preserves-gets, Preserves-bind)
