-- ===== src/Catalog/Resolution/Ordering.antt =====
-- The order of the effective catalog: src/catalog/resolution.ts.
use mathlib.Core.List.{Perm}
use nexus_cloud.Base.{
  Bool-cases, or_else, str-ne, All, All-weaken, ℕ, zero, suc, ◌+◌, ◌≤◌, String, ◌≡◌, refl, ap, ◌≢◌,
  ◌⊎◌, inl, inr, true, false, Option, none, some, List, [], ◌∷◌, arith, ◌==◌, eq_iff,
}
use nexus_cloud.Base.Sorting.{Ordered, sort_by-Ordered, sort_by-perm}
use nexus_cloud.Catalog.Types.{
  CatalogUserPreferences, CatalogResolutionContext, GlobalCatalogEntry, EffectiveCatalogEntry,
}
use nexus_cloud.Catalog.Resolution.{
  Comparison, is_above, or_next, compare_numbers, index_of, ranked, rank, compare_entries,
  sort_by_preference, collected, resolve_effective_catalog,
}

-- The first rank comes before the second, or they are the same: by class, then by place.
abbrev pub RankLe : ℕ × ℕ → ℕ × ℕ → Type 0
RankLe a b = (a.0 ≤ b.0) × (a.0 ≡ b.0 → a.1 ≤ b.1)

-- The id stands at the place, counted from 0, and nowhere after it.
abbrev pub StandsAt : List String → ℕ → String → Type 0
StandsAt [] i id = ⊥
StandsAt (x ∷ xs) zero id = (x ≡ id) × All (λ y. y ≢ id) xs
StandsAt (x ∷ xs) (suc i) id = StandsAt xs i id

-- The id does not stand in the list.
abbrev pub StandsNowhere : List String → String → Type 0
StandsNowhere ids id = All (λ y. y ≢ id) ids

-- Where the second of two tools stands in a list, the first does, and at no later place.
abbrev pub NotLater : List String → String → String → Type 0
NotLater ids x y = (j : ℕ) → StandsAt ids j y → (i : ℕ) × StandsAt ids i x × (i ≤ j)

-- The first of two tools may come before the second: it is not behind it in the pins, and, where it is
-- not pinned, not in the recent tools either.
abbrev pub MayPrecede : List String → List String → String → String → Type 0
MayPrecede pinned recent x y = NotLater pinned x y × (StandsNowhere pinned x → NotLater recent x y)

-- Every entry may come before each one after it.
abbrev pub IsRanked : CatalogUserPreferences → List EffectiveCatalogEntry → Type 0
IsRanked preferences = Ordered (λ x y.
    MayPrecede (or_else preferences.pinned_ids []) (or_else preferences.recent_ids []) x.tool_id
      y.tool_id)

-- The same by the ranks that are compared.
abbrev RanksOrdered : CatalogUserPreferences → List EffectiveCatalogEntry → Type 0
RanksOrdered preferences = Ordered (λ x y. RankLe (rank preferences x) (rank preferences y))

index_of-nowhere :
    (n : ℕ) (ids : List String) (id : String) → StandsNowhere ids id → index_of n ids id ≡ none
unfolding index_of
index_of-nowhere n [] id h = refl
index_of-nowhere n (x ∷ xs) id h = rw (index_of-nowhere (suc n) xs id h.1, str-ne x id h.0) refl

index_of-stands :
    (n : ℕ) (ids : List String) (i : ℕ) (id : String)
    → StandsAt ids i id
    → index_of n ids id ≡ some (n + i)
unfolding index_of
index_of-stands n [] i id h = absurd h
index_of-stands n (x ∷ xs) zero id h =
    rw (index_of-nowhere (suc n) xs id h.1, (eq_iff x id).1 h.0) (ap some (omega arith))
index_of-stands n (x ∷ xs) (suc i) id h =
    rw (index_of-stands (suc n) xs i id h) (ap some (omega arith))

-- An id stands at some last place of a list, or nowhere in it.
locate : (ids : List String) (id : String) → ((i : ℕ) × StandsAt ids i id) ⊎ StandsNowhere ids id
locate [] id = inr tt
locate (x ∷ xs) id = elim (locate xs id) [
  | inl (i, h) ↦ inl (suc i, h)
  | inr h ↦ elim (Bool-cases (x == id)) [
    | inl e ↦ inl (0, ((eq_iff x id).0 e, h))
    | inr e ↦ inr ((λ same. let equal = (eq_iff x id).1 same in cc), h)
  ]
]

unpinned_behind :
    (recent : Option ℕ) (i : ℕ) (b : ℕ × ℕ) → RankLe (ranked none recent) b → b ≡ (0, i) → ⊥
unpinned_behind none i b h e = let first = rw e at h.0 in omega (arith, first)
unpinned_behind (some j) i b h e = let first = rw e at h.0 in omega (arith, first)

RankLe-MayPrecede :
    (pinned recent : List String) (x y : String)
    → RankLe
        (ranked (index_of 0 pinned x) (index_of 0 recent x))
        (ranked (index_of 0 pinned y) (index_of 0 recent y))
    → MayPrecede pinned recent x y
RankLe-MayPrecede pinned recent x y h = (in_pins, in_recent)
  where
    in_pins : NotLater pinned x y
    in_pins j at_j =
        let k = rw (index_of-stands 0 pinned j y at_j) at h in
        elim (locate pinned x) [
          | inl (i, at_i) ↦
              let l = rw (index_of-stands 0 pinned i x at_i) at k in
              (i, at_i, let le = l.1 refl in omega (arith, le))
          | inr nowhere ↦
              absurd
                (unpinned_behind _ (0 + j) _ (rw (index_of-nowhere 0 pinned x nowhere) at k) refl)
        ]

    in_recent : StandsNowhere pinned x → NotLater recent x y
    in_recent nowhere j at_j =
        let k = rw (index_of-nowhere 0 pinned x nowhere) at h in
        elim (locate pinned y) [
          | inl (i, at_i) ↦
              absurd
                (unpinned_behind _ (0 + i) _ (rw (index_of-stands 0 pinned i y at_i) at k) refl)
          | inr unpinned ↦
              let l =
                rw (index_of-stands 0 recent j y at_j) at
                  (rw (index_of-nowhere 0 pinned y unpinned) at k) in
              elim (locate recent x) [
                | inl (i, at_i) ↦
                    let m = rw (index_of-stands 0 recent i x at_i) at l in
                    (i, at_i, let le = m.1 refl in omega (arith, le))
                | inr gone ↦
                    let m = rw (index_of-nowhere 0 recent x gone) at l in
                    absurd (let le = m.0 in omega (arith, le))
              ]
        ]

RanksOrdered-IsRanked :
    (preferences : CatalogUserPreferences) (xs : List EffectiveCatalogEntry)
    → RanksOrdered preferences xs
    → IsRanked preferences xs
unfolding rank
RanksOrdered-IsRanked preferences [] h = tt
RanksOrdered-IsRanked preferences (x ∷ xs) h = (
  All-weaken _ (λ y k. RankLe-MayPrecede _ _ x.tool_id y.tool_id k) xs h.0,
  RanksOrdered-IsRanked preferences xs h.1,
)

RankLe-trans : (a b c : ℕ × ℕ) → RankLe a b → RankLe b c → RankLe a c
RankLe-trans a b c h k = (omega arith, λ e. ground (arith, h.1, k.1))

above-RankLe :
    (a b : ℕ × ℕ) (rest : Comparison)
    → is_above (or_next (compare_numbers a.0 b.0) (or_next (compare_numbers a.1 b.1) rest)) ≡ true
    → RankLe b a
above-RankLe a b rest h = (ground arith, λ e. ground arith)

not_above-RankLe :
    (a b : ℕ × ℕ) (rest : Comparison)
    → is_above (or_next (compare_numbers a.0 b.0) (or_next (compare_numbers a.1 b.1) rest)) ≡ false
    → RankLe a b
not_above-RankLe a b rest h = (ground arith, λ e. ground arith)

module _ (collate : String → String → Comparison) (preferences : CatalogUserPreferences) where
  ranked_before :
      (x y : EffectiveCatalogEntry)
      → is_above (compare_entries collate preferences x y) ≡ true
      → RankLe (rank preferences y) (rank preferences x)
  unfolding compare_entries
  ranked_before x y h = above-RankLe (rank preferences x) (rank preferences y) _ h

  ranked_after :
      (x y : EffectiveCatalogEntry)
      → is_above (compare_entries collate preferences x y) ≡ false
      → RankLe (rank preferences x) (rank preferences y)
  unfolding compare_entries
  ranked_after x y h = not_above-RankLe (rank preferences x) (rank preferences y) _ h

  sort_by_preference-RanksOrdered :
      (xs : List EffectiveCatalogEntry)
      → RanksOrdered preferences (sort_by_preference collate preferences xs)
  unfolding sort_by_preference
  sort_by_preference-RanksOrdered xs =
      sort_by-Ordered (λ x y. is_above (compare_entries collate preferences x y))
        (λ x y. RankLe (rank preferences x) (rank preferences y))
        (λ x y z h k.
          RankLe-trans (rank preferences x) (rank preferences y) (rank preferences z) h k)
        ranked_before ranked_after xs

-- Whatever the collation answers, the effective catalog is a rearrangement of the collected entries in
-- which pinned tools come first, in the order of their last pins, then recent ones in the order of
-- their last places among the recent tools, then the rest.
pub resolve_effective_catalog-IsRanked :
    (collate : String → String → Comparison) (globals : List GlobalCatalogEntry)
    (context : CatalogResolutionContext)
    → IsRanked context.preferences (resolve_effective_catalog collate globals context)
      × Perm (resolve_effective_catalog collate globals context) (collected context globals)
unfolding resolve_effective_catalog sort_by_preference
resolve_effective_catalog-IsRanked collate globals context = (
  RanksOrdered-IsRanked context.preferences _
      (sort_by_preference-RanksOrdered collate context.preferences (collected context globals)),
  sort_by-perm _ (collected context globals),
)
