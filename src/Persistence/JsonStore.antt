-- ===== src/Persistence/JsonStore.antt =====
-- A JSON file with a temporary file and a backup beside it: src/persistence/json-store.ts. The texts of
-- the files are values of a type `C`: `read` is `JSON.parse` and the store's sanitizer, none where one
-- of them throws, and `print` is `JSON.stringify`.
pub mod Writing
pub mod Crash
pub mod Recovery
use nexus_cloud.Base.{
  ltb, WriteOutcome, saved, lost, replaced, ℕ, Bool, true, false, not, Option, none, some, List, [],
  ◌∷◌, ◌++◌,
}
use nexus_cloud.Base.Sorting.{sort_by}

-- The three files, each with its text, if it exists.
pub record Disk (C : Type 0) : Type 0 where
  pub primary : Option C
  pub temp : Option C
  pub backup : Option C

pub data Source : Type 0 where
  primary temp backup : Source

-- `JsonStoreRecovery`, less the instant; none is the source "empty".
pub record JsonStoreRecovery : Type 0 where
  pub source : Option Source
  pub recovered : Bool
  pub repaired : Bool

abbrev pub priority : Source → ℕ
priority Source.primary = 0
priority Source.temp = 1
priority Source.backup = 2

abbrev pub is_source : Source → Source → Bool
is_source Source.primary Source.primary = true
is_source Source.temp Source.temp = true
is_source Source.backup Source.backup = true
is_source _ _ = false

-- `readCandidate`, as a list of none or one
abbrev pub candidate_of : {T : Type 0} → Source → Option T → List (Source × T)
candidate_of source none = []
candidate_of source (some v) = (source, v) ∷ []

abbrev pub first : {T : Type 0} → List (Source × T) → Option (Source × T)
first [] = none
first (c ∷ cs) = some c

-- The candidates in the order of their priority, and the first of them.
unfoldable pub first_candidate : {T : Type 0} → Option T → Option T → Option T → Option (Source × T)
unfolding sort_by
first_candidate p t b = first (
    sort_by (λ c d. ltb (priority d.0) (priority c.0))
      (candidate_of Source.primary p ++ candidate_of Source.temp t ++ candidate_of Source.backup b))

module _ {C T : Type 0} (read : C → Option T) where
  abbrev pub read_file : Option C → Option T
  read_file none = none
  read_file (some c) = read c

  unfoldable pub winner : Disk C → Option (Source × T)
  unfolding first_candidate
  winner d = first_candidate (read_file d.primary) (read_file d.temp) (read_file d.backup)

module _ {C : Type 0} where
  -- `writeJsonStoreAtomic` of a text, without a backup, by what becomes of it: it succeeds, it fails
  -- before the rename, or after it. `left` is what the temporary file holds after a failure before the
  -- rename: none where it was removed or never there, and otherwise what was in it, as `safeUnlink`
  -- swallows a failure, and as the folder and the text are made before the `try`.
  unfoldable pub write_json_store_atomic : WriteOutcome → Option C → C → Disk C → Bool × Disk C
  write_json_store_atomic saved left c d = (true, record d { primary = some c; temp = none })
  write_json_store_atomic lost left c d = (false, record d { temp = left })
  write_json_store_atomic replaced left c d = (false, record d { primary = some c; temp = none })

  abbrev pub unlink_unless : Bool → Disk C → Disk C
  unlink_unless true d = d
  unlink_unless false d = record d { temp = none }

  -- The repair of a store whose primary file did not win, and the removal of a temporary file that did
  -- not, where that removal succeeds.
  unfoldable pub repaired : WriteOutcome → Option C → Source → C → Disk C → Bool × Disk C
  unfolding write_json_store_atomic
  repaired o left Source.primary c d = (false, unlink_unless false d)
  repaired o left source c d =
      let (done, after) = write_json_store_atomic o left c d in
      (done, unlink_unless (is_source source Source.temp) after)

module _ {C T : Type 0} (print : T → C) (empty : T) where
  abbrev pub loaded :
      WriteOutcome → Option C → Option (Source × T) → Disk C → T × JsonStoreRecovery × Disk C
  loaded o left none d = (empty, record { source = none; recovered = false; repaired = false }, d)
  loaded o left (some (source, v)) d =
      let (done, after) = repaired o left source (print v) d in
      (
        v,
        record {
          source = some source;
          recovered = not (is_source source Source.primary);
          repaired = done;
        },
        after,
      )

  -- `loadJsonStoreWithRecovery`, with what becomes of the repair's write
  unfoldable pub load_json_store_with_recovery :
      (C → Option T) → WriteOutcome → Option C → Disk C → T × JsonStoreRecovery × Disk C
  unfolding winner repaired
  load_json_store_with_recovery read o left d = loaded o left (winner read d) d
