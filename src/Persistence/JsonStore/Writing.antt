-- ===== src/Persistence/JsonStore/Writing.antt =====
-- A crash at any point of a write: `writeJsonStoreAtomic` of src/persistence/json-store.ts, as the steps
-- that it makes on the disk, its syncs included. The text of a file is safe once the file is synced:
-- until then a crash can leave anything in its place. The name of the primary file leads to the new
-- file on the disk at the latest when the directory is synced, and at the earliest at the rename. The
-- primary file is replaced by a rename alone, which is atomic.
use nexus_cloud.Base.{◌≡◌, Bool, true, false, Option, none, some}
use nexus_cloud.Persistence.JsonStore.{Disk}

-- A file, with its text as a process reads it, and whether that text is safe on the disk.
pub record File (C : Type 0) : Type 0 where
  pub text : C
  pub synced : Bool

-- The files as a process sees them, and the one that the primary's name leads to after a crash.
pub record Machine (C : Type 0) : Type 0 where
  pub primary : Option (File C)
  pub temp : Option (File C)
  pub backup : Option (File C)
  pub stable : Option (File C)

-- How far a write is: nothing done, the backup being made, the backup settled, the temporary file
-- written, synced, renamed, the directory synced; given up before the rename, with the temporary file
-- removed or left; given up after it.
pub data Phase : Type 0 where
  begun copying backed written ready renamed done failed littered unsynced : Phase

abbrev pub past_rename : Phase → Bool
past_rename Phase.renamed = true
past_rename Phase.done = true
past_rename Phase.unsynced = true
past_rename _ = false

abbrev pub is_durable : Phase → Bool
is_durable Phase.done = true
is_durable _ = false

-- The phases in the `try`, up to the rename
abbrev pub is_open : Phase → Bool
is_open Phase.begun = true
is_open Phase.copying = true
is_open Phase.backed = true
is_open Phase.written = true
is_open Phase.ready = true
is_open _ = false

abbrev pub is_over : Phase → Bool
is_over Phase.done = true
is_over Phase.failed = true
is_over Phase.littered = true
is_over Phase.unsynced = true
is_over _ = false

abbrev pub safe : {C : Type 0} → C → File C
safe c = record { text = c; synced = true }

abbrev pub unsafe : {C : Type 0} → C → File C
unsafe c = record { text = c; synced = false }

-- The steps of writing `payload`, and the operating system's writing of the directory.
pub data Step {C : Type 0} (payload : C) : Phase → Machine C → Phase → Machine C → Type 0 where
  no_copy : (m : Machine C) → Step payload Phase.begun m Phase.backed m
  copy :
      (m : Machine C) (f : File C) (part : C)
      → m.primary ≡ some f
      → Step payload Phase.begun m Phase.copying (record m { backup = some (unsafe part) })
  copy_more :
      (m : Machine C) (part : C)
      → Step payload Phase.copying m Phase.copying (record m { backup = some (unsafe part) })
  sync_backup :
      (m : Machine C) (f : File C)
      → m.primary ≡ some f
      → Step payload Phase.copying m Phase.backed (record m { backup = some (safe f.text) })
  write_part :
      (m : Machine C) (part : C)
      → Step payload Phase.backed m Phase.backed (record m { temp = some (unsafe part) })
  write :
      (m : Machine C)
      → Step payload Phase.backed m Phase.written (record m { temp = some (unsafe payload) })
  sync_temp :
      (m : Machine C) (f : File C)
      → m.temp ≡ some f
      → Step payload Phase.written m Phase.ready (record m { temp = some (safe f.text) })
  rename :
      (m : Machine C) (f : File C)
      → m.temp ≡ some f
      → Step payload Phase.ready m Phase.renamed (record m { primary = some f; temp = none })
  sync_directory :
      (m : Machine C) → Step payload Phase.renamed m Phase.done (record m { stable = m.primary })
  flush : (p : Phase) (m : Machine C) → Step payload p m p (record m { stable = m.primary })
  give_up :
      (p : Phase) (m : Machine C)
      → is_open p ≡ true
      → Step payload p m Phase.failed (record m { temp = none })
  give_up_littered :
      (p : Phase) (m : Machine C) (f : File C)
      → is_open p ≡ true
      → m.temp ≡ some f
      → Step payload p m Phase.littered m
  give_up_late : (m : Machine C) → Step payload Phase.renamed m Phase.unsynced m

-- The phases and machines that a write can reach.
pub data Reach {C : Type 0} (payload : C) (start : Machine C) : Phase → Machine C → Type 0 where
  here : Reach payload start Phase.begun start
  next :
      {p q : Phase} {m n : Machine C}
      → Reach payload start p m
      → Step payload p m q n
      → Reach payload start q n

-- What a crash leaves of a file: its text, if that is safe, and anything otherwise.
abbrev pub Left : {C : Type 0} → Option (File C) → Option C → Type 0
Left none o = o ≡ none
Left (some f) o = f.synced ≡ true → o ≡ some f.text

-- What a crash leaves on the disk: the file that the primary's name leads to; the other two files can be
-- there or not, with any text.
abbrev pub Survives : {C : Type 0} → Machine C → Disk C → Type 0
Survives m d = Left m.stable d.primary

abbrev pub text_of : {C : Type 0} → Option (File C) → Option C
text_of none = none
text_of (some f) = some f.text

-- The disk as a process sees it.
abbrev pub seen : {C : Type 0} → Machine C → Disk C
seen m = record { primary = text_of m.primary; temp = text_of m.temp; backup = text_of m.backup }
