-- ===== src/Persistence/JsonStore/Recovery.antt =====
-- What loading a store leaves on the disk: src/persistence/json-store.ts.
use mathlib.Core.Option
use nexus_cloud.Base.{
  WriteOutcome, saved, lost, ◌≡◌, refl, sym, ap, ◌∙◌, false, Option, none, some, arith,
}
use nexus_cloud.Persistence.JsonStore.{
  Disk, Source, JsonStoreRecovery, first_candidate, read_file, winner,
  load_json_store_with_recovery, loaded, repaired,
}

-- A readable primary file wins, then the temporary one, then the backup.
pub first_candidate-primary :
    {T : Type 0} (v : T) (t b : Option T) → first_candidate (some v) t b ≡ some (Source.primary, v)
unfolding first_candidate
first_candidate-primary v none none = refl
first_candidate-primary v none (some b) = refl
first_candidate-primary v (some t) none = refl
first_candidate-primary v (some t) (some b) = refl

pub first_candidate-temp :
    {T : Type 0} (v : T) (b : Option T) → first_candidate none (some v) b ≡ some (Source.temp, v)
unfolding first_candidate
first_candidate-temp v none = refl
first_candidate-temp v (some b) = refl

pub first_candidate-backup :
    {T : Type 0} (b : Option T)
    → first_candidate none none b ≡ elim b [ none ↦ none | some v ↦ some (Source.backup, v) ]
unfolding first_candidate
first_candidate-backup none = refl
first_candidate-backup (some b) = refl

first_candidate_inv :
    {T : Type 0} (p t b : Option T) (v : T)
    → first_candidate p t b ≡ some (Source.primary, v)
    → p ≡ some v
first_candidate_inv (some w) t b v h =
    let same = sym (first_candidate-primary w t b) ∙ h in ap (Option.map (λ c. c.1)) same
first_candidate_inv none (some w) b v h =
    let bad = sym (first_candidate-temp w b) ∙ h in absurd (ground (arith, bad))
first_candidate_inv none none (some w) v h =
    let bad = sym (first_candidate-backup (some w)) ∙ h in absurd (ground (arith, bad))
first_candidate_inv none none none v h =
    let bad : none ≡ some (Source.primary, v) = sym (first_candidate-backup {T = _} none) ∙ h in
    absurd (ground (arith, bad))

module _ {C T : Type 0} (read : C → Option T) (print : T → C) (empty : T)
    (read-print : (v : T) → read (print v) ≡ some v) where
  abbrev load : WriteOutcome → Option C → Disk C → T × JsonStoreRecovery × Disk C
  load = load_json_store_with_recovery print empty read

  -- A readable primary file, with no temporary one, is loaded as it is.
  load-settled :
      (o : WriteOutcome) (left : Option C) (d : Disk C) (v : T)
      → read_file read d.primary ≡ some v
      → d.temp ≡ none
      → load o left d
        ≡ (v, record { source = some Source.primary; recovered = false; repaired = false }, d)
  unfolding load_json_store_with_recovery
  load-settled o left d v h k =
      rw h (rw k (rw (first_candidate-primary v none (read_file read d.backup)) refl))

  loaded_from :
      (o : WriteOutcome) (left : Option C) (d : Disk C) (source : Source) (v : T)
      → winner read d ≡ some (source, v)
      → load o left d ≡ loaded print empty o left (some (source, v)) d
  unfolding load_json_store_with_recovery
  loaded_from o left d source v h = rw h

  -- The disk after a load holds the value in its primary file alone.
  settled :
      (d : Disk C) (source : Source) (v : T)
      → winner read d ≡ some (source, v)
      → let after = (repaired saved none source (print v) d).1 in
        (read_file read after.primary ≡ some v) × (after.temp ≡ none)
  unfolding repaired winner
  settled d Source.primary v h = (
    first_candidate_inv (read_file read d.primary) (read_file read d.temp) (read_file read d.backup)
        v h,
    refl,
  )
  settled d Source.temp v h = (read-print v, refl)
  settled d Source.backup v h = (read-print v, refl)

  -- After a load that found a value, in any file, and whose repair, if it needed one, succeeded, the
  -- primary file holds that value: every later load answers with it from there, reports nothing
  -- recovered, and leaves the disk as it is.
  load_is_stable :
      (d : Disk C) (source : Source) (v : T)
      → winner read d ≡ some (source, v)
      → (o' : WriteOutcome) (left' : Option C)
      → let first = load saved none d in
        (first.0 ≡ v)
        × (load o' left' first.2 ≡ (
          v,
          record { source = some Source.primary; recovered = false; repaired = false },
          first.2,
        ))
  load_is_stable d source v h o' left' =
      let (kept, gone) = settled d source v h in
      rw (loaded_from saved none d source v h) (refl, load-settled o' left' _ v kept gone)

  -- Where a repair fails before its rename, and the temporary file is removed, as the code does on a
  -- failure, and was the only readable file, the load answers with its value, and leaves a disk from
  -- which every later load answers with the empty value.
  pub failed_repair_loses_temp :
      (d : Disk C) (v : T)
      → read_file read d.primary ≡ none
      → read_file read d.temp ≡ some v
      → read_file read d.backup ≡ none
      → (o' : WriteOutcome) (left' : Option C)
      → let first = load lost none d in (first.0 ≡ v) × ((load o' left' first.2).0 ≡ empty)
  unfolding load_json_store_with_recovery
  failed_repair_loses_temp d v p t b o' left' =
      rw p (rw t (rw (first_candidate-temp v (read_file read d.backup)) (refl, rw p (rw b refl))))
