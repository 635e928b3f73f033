-- ===== src/SystemsApi/Registry/Revocation/Sweep.antt =====
-- A loop that marks every element that an owner has, by upserts, leaves none of them live.
use mathlib.Core.Path.{subst}
use nexus_cloud.Base.{
  Bool-cases, str-eq_self, str-ne, str-eq_comm, filter, upsert, All, Any, All-weaken, Distinct,
  Apart, Sameness, Apart-upsert, ℕ, suc, String, ◌≡◌, refl, sym, ◌∙◌, inl, inr, Bool, true, false,
  List, [], ◌∷◌, arith, ◌==◌, eq_iff,
}

pub Distinct→Apart {ℓ} :
    {A : Type ℓ} (key : A → String) (xs : List A)
    → Distinct key xs
    → Apart (λ x y. key y == key x) xs
Distinct→Apart key [] d = tt
Distinct→Apart key (x ∷ xs) d = (
  All-weaken (λ y. (key y == key x) ≡ false) (λ y h. str-ne (key y) (key x) h) xs d.0,
  Distinct→Apart key xs d.1,
)

pub key-Sameness {ℓ} : {A : Type ℓ} (key : A → String) → Sameness {A = A} (λ x y. key y == key x)
key-Sameness key = record {
  self = λ x. str-eq_self (key x);
  either = λ x y. str-eq_comm (key y) (key x);
  alike = λ x y z h. rw ((eq_iff (key y) (key x)).0 h) refl;
}

module _ {A : Type 0} (same : A → A → Bool) (live own : A → Bool) (mark : ℕ → A → A) where
  -- The loop, over the elements `ms` of the array as it was.
  abbrev pub sweep : ℕ → List A → List A → List A
  sweep i [] xs = xs
  sweep i (m ∷ ms) xs = sweep (suc i) ms (upsert (same (mark i m)) (mark i m) xs)

  -- What is live still is still to come.
  abbrev pub Pending : List A → List A → Type 0
  Pending ms xs = All (λ a. own a ≡ true → live a ≡ true → Any (λ m. same m a ≡ true) ms) xs

  module _ (s : Sameness same) (like : (i : ℕ) (a x : A) → same (mark i a) x ≡ same a x)
      (dead : (i : ℕ) (a : A) → live (mark i a) ≡ false) where
    -- The elements that are not the one that is marked.
    others :
        (m x : A) (ms ys : List A)
        → same m x ≡ true
        → All (λ y. same x y ≡ false) ys
        → Pending (m ∷ ms) ys
        → Pending ms ys
    others m x ms [] e h p = tt
    others m x ms (y ∷ ys) e h p = (
      (λ o l. elim (p.0 o l) [ inl q ↦ let k = s.alike m x y e in cc (k, q, h.0) | inr q ↦ q ]),
      others m x ms ys e h.1 p.1,
    )

    Pending-upsert :
        (i : ℕ) (m : A) (ms xs : List A)
        → Apart same xs
        → Pending (m ∷ ms) xs
        → Pending ms (upsert (same (mark i m)) (mark i m) xs)
    Pending-upsert i m ms [] a p = ((λ o l. let d = dead i m in cc (d, l)), tt)
    Pending-upsert i m ms (x ∷ xs) a p = elim (Bool-cases (same (mark i m) x)) [
      | inl e ↦
          rw e (
            (λ o l. let d = dead i m in cc (d, l)),
            others m x ms xs (sym (like i m x) ∙ e) a.0 p.1,
          )
      | inr e ↦ rw e (
        (λ o l. elim (p.0 o l) [ inl q ↦ let k = like i m x in cc (k, e, q) | inr q ↦ q ]),
        Pending-upsert i m ms xs a.1 p.1,
      )
    ]

    sweep-Pending :
        (i : ℕ) (ms xs : List A) → Apart same xs → Pending ms xs → Pending [] (sweep i ms xs)
    sweep-Pending i [] xs a p = p
    sweep-Pending i (m ∷ ms) xs a p =
        sweep-Pending (suc i) ms (upsert (same (mark i m)) (mark i m) xs)
          (Apart-upsert same s (mark i m) xs a) (Pending-upsert i m ms xs a p)

    all-Pending : (xs : List A) → Pending (filter own xs) xs
    all-Pending [] = tt
    all-Pending (x ∷ xs) = elim (Bool-cases (own x)) [
      | inl e ↦
          let q : filter own (x ∷ xs) ≡ x ∷ filter own xs = rw e refl in
          subst (λ ys. Pending ys (x ∷ xs)) (sym q)
            (
              (λ o l. inl (s.self x)),
              All-weaken
                  (λ a.
                    own a ≡ true → live a ≡ true → Any (λ m. same m a ≡ true) (x ∷ filter own xs))
                  (λ a f o l. inr (f o l)) xs (all-Pending xs),
            )
      | inr e ↦
          let q : filter own (x ∷ xs) ≡ filter own xs = rw e refl in
          subst (λ ys. Pending ys (x ∷ xs)) (sym q) ((λ o l. absurd (ground arith)), all-Pending xs)
    ]

    -- What is swept is not live.
    pub sweep-dead :
        (i : ℕ) (ms xs : List A)
        → Apart same xs
        → Pending ms xs
        → All (λ a. own a ≡ true → live a ≡ false) (sweep i ms xs)
    sweep-dead i ms xs a p =
        All-weaken (λ a. own a ≡ true → live a ≡ false) (λ a f o. not_live (live a) (f o))
          (sweep i ms xs) (sweep-Pending i ms xs a p)
      where
        not_live : (b : Bool) → (b ≡ true → ⊥) → b ≡ false
        not_live true f = absurd (f refl)
        not_live false f = refl

    pub sweep-owned-dead :
        (i : ℕ) (xs : List A)
        → Apart same xs
        → All (λ a. own a ≡ true → live a ≡ false) (sweep i (filter own xs) xs)
    sweep-owned-dead i xs a = sweep-dead i (filter own xs) xs a (all-Pending xs)
