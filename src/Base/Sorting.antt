-- ===== src/Base/Sorting.antt =====
-- `sort(compareFunction)`, which keeps the order of elements that compare as equal: by a test of
-- whether an element must stand after another.
use mathlib.Core.Path.{◌≡◌}
use mathlib.Core.Logic.{inl, inr}
use mathlib.Core.Bool.{Bool, true, false}
use mathlib.Core.List.{List, [], ◌∷◌, Perm}
use mathlib.Core.List.Perm
use nexus_cloud.Base.Tests.{if◌then◌else◌, Bool-cases}
use nexus_cloud.Base.Lists.{All, All-weaken}

-- Every element stands in the relation to each one after it.
abbrev pub Ordered {ℓ} : {A : Type ℓ} → (A → A → Type ℓ) → List A → Type ℓ
Ordered R [] = Unit
Ordered R (x ∷ xs) = All (R x) xs × Ordered R xs

module _ {ℓ} {A : Type ℓ} (after : A → A → Bool) where
  -- An element goes before the first that it need not stand after.
  unfoldable pub insert_by : A → List A → List A
  insert_by x [] = x ∷ []
  insert_by x (y ∷ ys) = let rest = y ∷ insert_by x ys in if after x y then rest else x ∷ y ∷ ys

  unfoldable pub sort_by : List A → List A
  unfolding insert_by
  sort_by [] = []
  sort_by (x ∷ xs) = insert_by x (sort_by xs)

  All-insert_by : (P : A → Type ℓ) (x : A) (xs : List A) → P x → All P xs → All P (insert_by x xs)
  unfolding insert_by
  All-insert_by P x [] h k = (h, tt)
  All-insert_by P x (y ∷ ys) h k = elim (Bool-cases (after x y)) [
    | inl e ↦ rw e (k.0, All-insert_by P x ys h k.1)
    | inr e ↦ rw e (h, k)
  ]

  -- A property of every element is one of every element of the sorted list.
  pub All-sort_by : (P : A → Type ℓ) (xs : List A) → All P xs → All P (sort_by xs)
  unfolding sort_by
  All-sort_by P [] h = tt
  All-sort_by P (x ∷ xs) h = All-insert_by P x _ h.0 (All-sort_by P xs h.1)

  insert_by-perm : (x : A) (xs : List A) → Perm (insert_by x xs) (x ∷ xs)
  unfolding insert_by
  insert_by-perm x [] = Perm.rfl
  insert_by-perm x (y ∷ ys) = elim (Bool-cases (after x y)) [
    | inl e ↦ rw e (Perm.trans (Perm.cons y (insert_by-perm x ys)) (Perm.swap x y ys))
    | inr e ↦ rw e Perm.rfl
  ]

  pub sort_by-perm : (xs : List A) → Perm (sort_by xs) xs
  unfolding sort_by
  sort_by-perm [] = Perm.rfl
  sort_by-perm (x ∷ xs) = Perm.trans (insert_by-perm x _) (Perm.cons x (sort_by-perm xs))

  -- The test decides a transitive relation, up to ties.
  module _ (R : A → A → Type ℓ) (R-trans : (x y z : A) → R x y → R y z → R x z)
      (before : (x y : A) → after x y ≡ true → R y x)
      (behind : (x y : A) → after x y ≡ false → R x y) where
    insert_by-Ordered : (x : A) (xs : List A) → Ordered R xs → Ordered R (insert_by x xs)
    unfolding insert_by
    insert_by-Ordered x [] h = (tt, tt)
    insert_by-Ordered x (y ∷ ys) h = elim (Bool-cases (after x y)) [
      | inl e ↦ rw e (All-insert_by (R y) x ys (before x y e) h.0, insert_by-Ordered x ys h.1)
      | inr e ↦
          let first = behind x y e in
          rw e ((first, All-weaken (R x) (λ z k. R-trans x y z first k) ys h.0), h)
    ]

    pub sort_by-Ordered : (xs : List A) → Ordered R (sort_by xs)
    unfolding sort_by
    sort_by-Ordered [] = tt
    sort_by-Ordered (x ∷ xs) = insert_by-Ordered x _ (sort_by-Ordered xs)
