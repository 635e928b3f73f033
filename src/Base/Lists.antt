-- ===== src/Base/Lists.antt =====
-- Lists as the program uses its arrays: `find`, `findIndex` with an assignment or a `push`,
-- `filter`, `some`, `slice`, and the invariant that no two elements share a key.
use Prim.Native.Nat.{ℕ, zero, suc, ◌+◌, ◌-◌, ◌≤◌}
use mathlib.Core.Path.{◌≡◌, refl, ap}
use mathlib.Core.Logic.{◌⊎◌, inl, inr}
use mathlib.Core.Bool.{Bool, true, false, ◌||◌}
use mathlib.Core.Option.{Option, none, some}
use mathlib.Core.List.{List, [], ◌∷◌, ◌++◌}
use native.Mathlib.Omega.{arith}
use nexus_cloud.Base.Tests.{is_some, eqb, if◌then◌else◌, Bool-cases}

module _ {ℓ} {A : Type ℓ} where
  abbrev pub length : List A → ℕ
  length [] = 0
  length (x ∷ xs) = suc (length xs)

  -- `xs.filter(p)`
  abbrev pub filter : (A → Bool) → List A → List A
  filter p [] = []
  filter p (x ∷ xs) = let rest = filter p xs in if p x then x ∷ rest else rest

  -- `xs.some(p)`
  abbrev pub any : (A → Bool) → List A → Bool
  any p [] = false
  any p (x ∷ xs) = p x || any p xs

  -- `xs.find(p)`
  abbrev pub find : (A → Bool) → List A → Option A
  find p [] = none
  find p (x ∷ xs) = let rest = find p xs in if p x then some x else rest

  -- The assignment to the first element that passes the test, if there is one.
  abbrev pub update_first : (A → Bool) → (A → A) → List A → List A
  update_first p f [] = []
  update_first p f (x ∷ xs) = let rest = x ∷ update_first p f xs in if p x then f x ∷ xs else rest

  -- `i = xs.findIndex(p); if (i >= 0) xs[i] = v; else xs.push(v)`
  abbrev pub upsert : (A → Bool) → A → List A → List A
  upsert p v [] = v ∷ []
  upsert p v (x ∷ xs) = let rest = x ∷ upsert p v xs in if p x then v ∷ xs else rest

  -- `i = xs.findIndex(p); if (i >= 0) xs.splice(i, 1)`
  abbrev pub remove_first : (A → Bool) → List A → List A
  remove_first p [] = []
  remove_first p (x ∷ xs) = let rest = x ∷ remove_first p xs in if p x then xs else rest

  -- `xs.splice(0, n)`
  abbrev pub drop : ℕ → List A → List A
  drop zero xs = xs
  drop (suc n) [] = []
  drop (suc n) (x ∷ xs) = drop n xs

  abbrev pub take : ℕ → List A → List A
  take zero xs = []
  take (suc n) [] = []
  take (suc n) (x ∷ xs) = x ∷ take n xs

  pub length-append : (xs ys : List A) → length (xs ++ ys) ≡ length xs + length ys
  length-append [] ys = omega arith
  length-append (x ∷ xs) ys = omega (arith, length-append xs ys)

  pub length-drop : (n : ℕ) (xs : List A) → length (drop n xs) ≡ length xs - n
  length-drop zero xs = omega arith
  length-drop (suc n) [] = omega arith
  length-drop (suc n) (x ∷ xs) = omega (arith, length-drop n xs)

-- `P` holds of every element.
abbrev pub All {ℓ κ} : {A : Type ℓ} → (A → Type κ) → List A → Type κ
All P [] = Unit
All P (x ∷ xs) = P x × All P xs

-- `P` holds of some element, which is given.
abbrev pub Any {ℓ} : {A : Type ℓ} → (A → Type 0) → List A → Type 0
Any P [] = ⊥
Any P (x ∷ xs) = P x ⊎ Any P xs

module _ {ℓ κ} {A : Type ℓ} (P : A → Type κ) where
  pub All-append : (xs ys : List A) → All P xs → All P ys → All P (xs ++ ys)
  All-append [] ys h k = k
  All-append (x ∷ xs) ys h k = (h.0, All-append xs ys h.1 k)

  pub All-filter : (p : A → Bool) (xs : List A) → All P xs → All P (filter p xs)
  All-filter p [] h = tt
  All-filter p (x ∷ xs) h = elim (Bool-cases (p x)) [
    | inl e ↦ rw e (h.0, All-filter p xs h.1)
    | inr e ↦ rw e (All-filter p xs h.1)
  ]

  pub All-update_first :
      (p : A → Bool) (f : A → A) (xs : List A)
      → ((x : A) → P x → P (f x))
      → All P xs
      → All P (update_first p f xs)
  All-update_first p f [] k h = tt
  All-update_first p f (x ∷ xs) k h = elim (Bool-cases (p x)) [
    | inl e ↦ rw e (k x h.0, h.1)
    | inr e ↦ rw e (h.0, All-update_first p f xs k h.1)
  ]

  pub All-upsert : (p : A → Bool) (v : A) (xs : List A) → P v → All P xs → All P (upsert p v xs)
  All-upsert p v [] k h = (k, tt)
  All-upsert p v (x ∷ xs) k h = elim (Bool-cases (p x)) [
    | inl e ↦ rw e (k, h.1)
    | inr e ↦ rw e (h.0, All-upsert p v xs k h.1)
  ]

-- What a filter lets through passed its test.
pub filter-passes {ℓ} :
    {A : Type ℓ} (p : A → Bool) (xs : List A) → All (λ x. p x ≡ true) (filter p xs)
filter-passes p [] = tt
filter-passes p (x ∷ xs) = elim (Bool-cases (p x)) [
  | inl e ↦ rw e (e, filter-passes p xs)
  | inr e ↦ rw e (filter-passes p xs)
]

pub find-passes {ℓ} :
    {A : Type ℓ} (p : A → Bool) (xs : List A) (x : A) → find p xs ≡ some x → p x ≡ true
find-passes p [] x h = cc
find-passes p (y ∷ xs) x h = elim (Bool-cases (p y)) [
  | inl e ↦ let same : some y ≡ some x = rw e at h in ground arith
  | inr e ↦ find-passes p xs x (rw e at h)
]

pub find-update_first {ℓ} :
    {A : Type ℓ} (p : A → Bool) (f : A → A) (xs : List A) (x : A)
    → find p xs ≡ some x
    → p (f x) ≡ true
    → find p (update_first p f xs) ≡ some (f x)
find-update_first p f [] x h k = cc
find-update_first p f (y ∷ xs) x h k = elim (Bool-cases (p y)) [
  | inl e ↦ let same : some y ≡ some x = rw e at h in ground arith
  | inr e ↦ rw e (rw e (find-update_first p f xs x (rw e at h) k))
]

-- After an upsert a search by the same test finds what was written.
pub find-upsert_self {ℓ} :
    {A : Type ℓ} (p : A → Bool) (v : A) (xs : List A) → p v ≡ true → find p (upsert p v xs) ≡ some v
find-upsert_self p v [] h = rw h
find-upsert_self p v (x ∷ xs) h = elim (Bool-cases (p x)) [
  | inl e ↦ rw e (rw h)
  | inr e ↦ rw e (rw e (find-upsert_self p v xs h))
]

-- A search by a test that neither the new nor the replaced element passes is not affected.
pub find-upsert_other {ℓ} :
    {A : Type ℓ} (p q : A → Bool) (v : A) (xs : List A)
    → q v ≡ false
    → ((x : A) → p x ≡ true → q x ≡ false)
    → find q (upsert p v xs) ≡ find q xs
find-upsert_other p q v [] h k = rw h
find-upsert_other p q v (x ∷ xs) h k = elim (Bool-cases (p x)) [
  | inl e ↦ rw e (rw h (rw (k x e)))
  | inr e ↦ rw e (ap (λ r. if q x then some x else r) (find-upsert_other p q v xs h k))
]

pub All-weaken {ℓ κ μ} :
    {A : Type ℓ} {P : A → Type κ} (Q : A → Type μ)
    → ((x : A) → P x → Q x)
    → (xs : List A) → All P xs
    → All Q xs
All-weaken Q k [] h = tt
All-weaken Q k (x ∷ xs) h = (k x h.0, All-weaken Q k xs h.1)

-- What is found in a filtered list is found in the list.
pub Any-filter {ℓ} :
    {A : Type ℓ} (P : A → Type 0) (p : A → Bool) (xs : List A) → Any P (filter p xs) → Any P xs
Any-filter P p [] h = h
Any-filter P p (x ∷ xs) h = elim (Bool-cases (p x)) [
  | inl e ↦
      let both : P x ⊎ Any P (filter p xs) = rw e at h in
      elim both [ inl k ↦ inl k | inr k ↦ inr (Any-filter P p xs k) ]
  | inr e ↦ inr (Any-filter P p xs (rw e at h))
]

pub nil_of_length {ℓ} : {A : Type ℓ} (xs : List A) → eqb (length xs) 0 ≡ true → xs ≡ []
nil_of_length [] h = refl
nil_of_length (x ∷ xs) h = absurd (ground arith)

pub any-eq-is_some {ℓ} : {A : Type ℓ} (p : A → Bool) (xs : List A) → any p xs ≡ is_some (find p xs)
any-eq-is_some p [] = refl
any-eq-is_some p (x ∷ xs) = elim (Bool-cases (p x)) [
  | inl e ↦ rw e
  | inr e ↦ rw e (any-eq-is_some p xs)
]

pub length-filter {ℓ} : {A : Type ℓ} (p : A → Bool) (xs : List A) → length (filter p xs) ≤ length xs
length-filter p [] = omega arith
length-filter p (x ∷ xs) = elim (Bool-cases (p x)) [
  | inl e ↦ rw e (omega (arith, length-filter p xs))
  | inr e ↦ rw e (omega (arith, length-filter p xs))
]

pub All-every {ℓ κ} : {A : Type ℓ} (P : A → Type κ) (xs : List A) → ((x : A) → P x) → All P xs
All-every P [] k = tt
All-every P (x ∷ xs) k = (k x, All-every P xs k)

pub All-and {ℓ κ} :
    {A : Type ℓ} (P Q : A → Type κ) (xs : List A) → All P xs → All Q xs → All (λ x. P x × Q x) xs
All-and P Q [] h k = tt
All-and P Q (x ∷ xs) h k = ((h.0, k.0), All-and P Q xs h.1 k.1)

-- A change of the first element of a test, which is known.
pub All-update_found {ℓ κ} :
    {A : Type ℓ} (P : A → Type κ) (p : A → Bool) (f : A → A) (xs : List A) (x : A)
    → find p xs ≡ some x
    → P (f x)
    → All P xs
    → All P (update_first p f xs)
All-update_found P p f [] x found k h = tt
All-update_found P p f (y ∷ ys) x found k h = elim (Bool-cases (p y)) [
  | inl e ↦
      let same : some y ≡ some x = rw e at found in
      let here : y ≡ x = ground arith in rw e (rw here k, h.1)
  | inr e ↦ rw e (h.0, All-update_found P p f ys x (rw e at found) k h.1)
]
