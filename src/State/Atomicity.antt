-- ===== src/State/Atomicity.antt =====
-- What `mutateState` leaves behind, for each outcome of the write: src/state.ts.
use nexus_cloud.Base.{
  WriteOutcome, Failure, Result, Action, saved, lost, replaced, ok, thrown, write_failed, ◌≡◌, refl,
  ◌⊎◌, inl, inr,
}
use nexus_cloud.State.{Store, mutate_state, save_result, save_state}

-- The call returned `a`: the mutator did, and the live state and the file are what it left.
abbrev pub Committed : {P A : Type 0} → Result A × P → Result A × Store P → Type 0
Committed {P} {A} q r =
    (a : A) × (next : P) × (q ≡ (ok a, next)) × (r ≡ (ok a, record { live = next; file = next }))

-- The call threw: the live state is the old one, and the file is untouched, or the write was
-- replaced and holds what the mutator left.
abbrev pub RolledBack :
    {P A : Type 0} → WriteOutcome → Result A × P → Store P → Result A × Store P → Type 0
RolledBack {P} {A} w q s r =
    (e : Failure) × (file : P) × (r ≡ (thrown e, record { live = s.live; file = file }))
    × ((file ≡ s.file) ⊎ ((w ≡ replaced) × (a : A) × (q ≡ (ok a, file))))

save_result_atomic :
    {P A : Type 0} (w : WriteOutcome) (q : Result A × P) (s : Store P)
    → Committed q (save_result w q s) ⊎ RolledBack w q s (save_result w q s)
unfolding save_state
save_result_atomic saved (ok a, next) s = inl (a, next, refl, refl)
save_result_atomic lost (ok a, next) s = inr (write_failed, s.file, refl, inl refl)
save_result_atomic replaced (ok a, next) s = inr (write_failed, next, refl, inr (refl, a, refl))
save_result_atomic w (thrown e, next) s = inr (e, s.file, refl, inl refl)

-- Whatever the mutator and the write do: if the call returns, the mutator returned the same value
-- and both the live state and the file are what it left. If the call throws, the live state is
-- the one before the call, and the file is unchanged unless the write failed after the rename,
-- when it holds the state that the mutator left.
pub mutate_state_atomic :
    {P A : Type 0} (w : WriteOutcome) (mutator : Action P A) (s : Store P)
    → Committed (mutator s.live) (mutate_state w mutator s)
      ⊎ RolledBack w (mutator s.live) s (mutate_state w mutator s)
unfolding mutate_state
mutate_state_atomic w mutator s = save_result_atomic w (mutator s.live) s

-- If the directory sync fails after the rename, a call of `mutateState` whose mutator returns
-- throws and restores the live state, while the file keeps the state that was rolled back: memory
-- and disk disagree whenever the mutator changed anything.
mutate_state_diverges :
    {P A : Type 0} (mutator : Action P A) (s : Store P) (a : A) (next : P)
    → mutator s.live ≡ (ok a, next)
    → mutate_state replaced mutator s ≡ (thrown write_failed, record { live = s.live; file = next })
unfolding mutate_state save_state
mutate_state_diverges mutator s a next h = rw h
