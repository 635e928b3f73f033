-- ===== src/Base/Unlike.antt =====
-- Arrays of which no two elements are the same by a test that is not on one key.
use mathlib.Core.Path.{◌≡◌, ◌∙◌}
use mathlib.Core.Logic.{inl, inr}
use mathlib.Core.Bool.{Bool, true, false}
use mathlib.Core.List.{List, [], ◌∷◌}
use nexus_cloud.Base.Tests.{Bool-cases}
use nexus_cloud.Base.Lists.{All, All-upsert, All-weaken, upsert}

abbrev pub Apart {ℓ} : {A : Type ℓ} → (A → A → Bool) → List A → Type ℓ
Apart same [] = Unit
Apart same (x ∷ xs) = All (λ y. same x y ≡ false) xs × Apart same xs

-- What a test needs for an upsert by it to keep the elements apart.
pub record Sameness {ℓ} {A : Type ℓ} (same : A → A → Bool) : Type ℓ where
  pub self : (x : A) → same x x ≡ true
  pub either : (x y : A) → same x y ≡ same y x
  pub alike : (x y z : A) → same x y ≡ true → same x z ≡ same y z

pub Apart-upsert {ℓ} :
    {A : Type ℓ} (same : A → A → Bool) (s : Sameness same) (v : A) (xs : List A)
    → Apart same xs
    → Apart same (upsert (same v) v xs)
Apart-upsert same s v [] h = (tt, tt)
Apart-upsert same s v (x ∷ xs) h = elim (Bool-cases (same v x)) [
  | inl e ↦ rw e (All-weaken (λ y. same v y ≡ false) (λ y q. s.alike v x y e ∙ q) xs h.0, h.1)
  | inr e ↦ rw e (
    All-upsert (λ y. same x y ≡ false) (same v) v xs (s.either x v ∙ e) h.0,
    Apart-upsert same s v xs h.1,
  )
]
