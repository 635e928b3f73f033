-- ===== src/Base/Keys.antt =====
-- Arrays whose elements carry keys: no two share one, and what an upsert or a removal by key does to
-- a search by key.
use mathlib.Core.Path.{◌≡◌, refl, ap, sym, ◌∙◌}
use mathlib.Core.Logic.{◌≢◌, inl, inr}
use mathlib.Core.Bool.{Bool, true, false}
use mathlib.Core.Option.{none, some}
use mathlib.Core.List.{List, [], ◌∷◌, ◌++◌, map}
use native.Mathlib.Omega.{arith}
use Prim.Native.String.{String}
use text.Mathlib.Text.{◌==◌}
use text.Mathlib.TextEquality.{eq_iff}
use nexus_cloud.Base.Tests.{if◌then◌else◌, Bool-cases}
use nexus_cloud.Base.Lists.{
  All, All-append, All-update_first, update_first, any, All-upsert, find, find-upsert_self,
  find-upsert_other, upsert, remove_first,
}

-- No two elements share a key.
abbrev pub Distinct {ℓ} : {A : Type ℓ} → (A → String) → List A → Type ℓ
Distinct key [] = Unit
Distinct key (x ∷ xs) = All (λ y. key y ≢ key x) xs × Distinct key xs

pub All-upsert_key {ℓ} :
    {A : Type ℓ} (key : A → String) (v : A) (k : String) (xs : List A)
    → key v ≢ k
    → All (λ y. key y ≢ k) xs
    → All (λ y. key y ≢ k) (upsert (λ x. key x == key v) v xs)
All-upsert_key key v k xs h a = All-upsert (λ y. key y ≢ k) (λ x. key x == key v) v xs h a

-- An upsert by key keeps the keys distinct.
pub Distinct-upsert {ℓ} :
    {A : Type ℓ} (key : A → String) (v : A) (xs : List A)
    → Distinct key xs
    → Distinct key (upsert (λ x. key x == key v) v xs)
Distinct-upsert key v [] h = (tt, tt)
Distinct-upsert key v (x ∷ xs) h = elim (Bool-cases (key x == key v)) [
  | inl e ↦ let same = (eq_iff (key x) (key v)).0 e in rw e (rw same at h.0, h.1)
  | inr e ↦ rw e (
    All-upsert_key key v (key x) xs (λ p. let q = (eq_iff (key x) (key v)).1 (sym p) in cc (e, q))
        h.0,
    Distinct-upsert key v xs h.1,
  )
]

-- A search by key after an upsert by key.
pub find-upsert_key {ℓ} :
    {A : Type ℓ} (key : A → String) (v : A) (k j : String) (xs : List A)
    → key v ≡ k
    → find (λ x. key x == j) (upsert (λ x. key x == k) v xs)
      ≡ (if k == j then some v else find (λ x. key x == j) xs)
find-upsert_key key v k j xs h = elim (Bool-cases (k == j)) [
  | inl e ↦
      let same = (eq_iff k j).0 e in
      rw e (rw same (find-upsert_self (λ x. key x == j) v xs ((eq_iff (key v) j).1 (h ∙ same))))
  | inr e ↦ rw e (
      find-upsert_other (λ x. key x == k) (λ x. key x == j) v xs (rw h e)
        (λ x p. let q = (eq_iff (key x) k).0 p in rw q e))
]

pub find-remove_first_other {ℓ} :
    {A : Type ℓ} (p q : A → Bool) (xs : List A)
    → ((x : A) → p x ≡ true → q x ≡ false)
    → find q (remove_first p xs) ≡ find q xs
find-remove_first_other p q [] k = refl
find-remove_first_other p q (x ∷ xs) k = elim (Bool-cases (p x)) [
  | inl e ↦ rw (e, k x e)
  | inr e ↦ rw e (ap (λ r. if q x then some x else r) (find-remove_first_other p q xs k))
]

-- Where keys are distinct, what is removed by its key is not found any more.
pub find-remove_first_self {ℓ} :
    {A : Type ℓ} (key : A → String) (k : String) (xs : List A)
    → Distinct key xs
    → find (λ x. key x == k) (remove_first (λ x. key x == k) xs) ≡ none
find-remove_first_self key k [] d = refl
find-remove_first_self {A = A} key k (x ∷ xs) d = elim (Bool-cases (key x == k)) [
  | inl e ↦ rw e (absent xs (rw ((eq_iff (key x) k).0 e) at d.0))
  | inr e ↦ rw e (rw e (find-remove_first_self key k xs d.1))
]
  where
    absent : (ys : List A) → All (λ y. key y ≢ k) ys → find (λ x. key x == k) ys ≡ none
    absent [] h = refl
    absent (y ∷ ys) h = elim (Bool-cases (key y == k)) [
      | inl e ↦ absurd (h.0 ((eq_iff (key y) k).0 e))
      | inr e ↦ rw e (absent ys h.1)
    ]

pub Distinct-remove_first {ℓ} :
    {A : Type ℓ} (key : A → String) (p : A → Bool) (xs : List A)
    → Distinct key xs
    → Distinct key (remove_first p xs)
Distinct-remove_first key p [] d = tt
Distinct-remove_first {A = A} key p (x ∷ xs) d = elim (Bool-cases (p x)) [
  | inl e ↦ rw e d.1
  | inr e ↦ rw e (kept (key x) xs d.0, Distinct-remove_first key p xs d.1)
]
  where
    kept :
        (k : String) (ys : List A)
        → All (λ y. key y ≢ k) ys
        → All (λ y. key y ≢ k) (remove_first p ys)
    kept k [] h = tt
    kept k (y ∷ ys) h = elim (Bool-cases (p y)) [
      | inl e ↦ rw e h.1
      | inr e ↦ rw e (h.0, kept k ys h.1)
    ]

-- An element whose key no other has is added at the end.
pub Distinct-append_new {ℓ} :
    {A : Type ℓ} (key : A → String) (v : A) (xs : List A)
    → Distinct key xs
    → any (λ x. key x == key v) xs ≡ false
    → Distinct key (xs ++ v ∷ [])
Distinct-append_new key v [] d h = (tt, tt)
Distinct-append_new key v (x ∷ xs) d h = elim (Bool-cases (key x == key v)) [
  | inl e ↦ absurd (ground arith)
  | inr e ↦ (
    All-append (λ y. key y ≢ key x) xs (v ∷ []) d.0
        ((λ q. let k = (eq_iff (key x) (key v)).1 (sym q) in cc (k, e)), tt),
    Distinct-append_new key v xs d.1 (rw e at h),
  )
]

-- Elements replaced by others of the same keys.
pub Distinct-map {ℓ} :
    {A : Type ℓ} (key : A → String) (f : A → A) (xs : List A)
    → ((x : A) → key (f x) ≡ key x)
    → Distinct key xs
    → Distinct key (map f xs)
Distinct-map key f [] k d = tt
Distinct-map {A = A} key f (x ∷ xs) k d = (kept xs d.0, Distinct-map key f xs k d.1)
  where
    kept : (ys : List A) → All (λ y. key y ≢ key x) ys → All (λ y. key y ≢ key (f x)) (map f ys)
    kept [] h = tt
    kept (y ∷ ys) h = ((λ q. h.0 (sym (k y) ∙ q ∙ k x)), kept ys h.1)

pub any-map_key {ℓ} :
    {A : Type ℓ} (key : A → String) (f : A → A) (j : String) (xs : List A)
    → ((x : A) → key (f x) ≡ key x)
    → any (λ x. key x == j) (map f xs) ≡ any (λ x. key x == j) xs
any-map_key key f j [] k = refl
any-map_key key f j (x ∷ xs) k = rw (k x, any-map_key key f j xs k)

pub Distinct-update_first {ℓ} :
    {A : Type ℓ} (key : A → String) (p : A → Bool) (f : A → A) (xs : List A)
    → ((x : A) → key (f x) ≡ key x)
    → Distinct key xs
    → Distinct key (update_first p f xs)
Distinct-update_first key p f [] k d = tt
Distinct-update_first key p f (x ∷ xs) k d = elim (Bool-cases (p x)) [
  | inl e ↦ rw e (rw (k x) d)
  | inr e ↦ rw e (
    All-update_first (λ y. key y ≢ key x) p f xs (λ y h. λ q. h (sym (k y) ∙ q)) d.0,
    Distinct-update_first key p f xs k d.1,
  )
]

-- Where keys are distinct, a search by the key of an element finds that element.
pub find-key_self {ℓ} :
    {A : Type ℓ} (key : A → String) (xs : List A)
    → Distinct key xs
    → All (λ x. find (λ y. key y == key x) xs ≡ some x) xs
find-key_self key [] d = tt
find-key_self {A = A} key (x ∷ xs) d =
    (rw ((eq_iff (key x) (key x)).1 refl), behind xs d.0 (find-key_self key xs d.1))
  where
    behind :
        (ys : List A)
        → All (λ y. key y ≢ key x) ys
        → All (λ y. find (λ z. key z == key y) xs ≡ some y) ys
        → All (λ y. find (λ z. key z == key y) (x ∷ xs) ≡ some y) ys
    behind [] h k = tt
    behind (y ∷ ys) h k = (
      elim (Bool-cases (key x == key y)) [
        | inl e ↦ absurd (h.0 (sym ((eq_iff (key x) (key y)).0 e)))
        | inr e ↦ rw e k.0
      ],
      behind ys h.1 k.1,
    )
