-- ===== src/State.antt =====
-- The stateful core of src/state.ts: the live state and its file, and the two ways to change them,
-- `mutateState` and `replaceState`.
pub mod Types
pub mod Atomicity
use nexus_cloud.Base.{WriteOutcome, Result, Action, saved, lost, replaced, ok, thrown, write_failed}

-- The module's `state` object, and what the file at STATE_PATH holds.
pub record Store (P : Type 0) : Type 0 where
  pub live : P
  pub file : P

-- `writeSnapshotAtomic` as seen from outside: the temporary file is written and renamed over the
-- state file (`saved`); it throws before the rename and leaves the file (`lost`); or the rename is
-- done and the directory sync after it throws (`replaced`).
unfoldable pub save_state : {P : Type 0} → WriteOutcome → Action (Store P) (Unit {0})
save_state saved s = (ok tt, record s { file = s.live })
save_state lost s = (thrown write_failed, s)
save_state replaced s = (thrown write_failed, record s { file = s.live })

-- `catch (error) { applyStateSnapshot(before); throw error; }`
abbrev pub roll_back : {P A : Type 0} → P → A → Result (Unit {0}) × Store P → Result A × Store P
roll_back before a (ok _, s) = (ok a, s)
roll_back before a (thrown e, s) = (thrown e, record s { live = before })

abbrev pub save_result : {P A : Type 0} → WriteOutcome → Result A × P → Action (Store P) A
save_result w (ok a, next) s = roll_back s.live a (save_state w (record s { live = next }))
save_result w (thrown e, next) s = (thrown e, s)

-- The mutator runs on the live state, and the result is saved; a throw restores what was there.
unfoldable pub mutate_state : {P A : Type 0} → WriteOutcome → Action P A → Action (Store P) A
unfolding save_state
mutate_state w mutator s = save_result w (mutator s.live) s

unfoldable pub replace_state : {P : Type 0} → WriteOutcome → P → Action (Store P) (Unit {0})
unfolding save_state
replace_state w next s = roll_back s.live tt (save_state w (record s { live = next }))
