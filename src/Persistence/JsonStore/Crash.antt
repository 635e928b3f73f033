-- ===== src/Persistence/JsonStore/Crash.antt =====
-- What a write leaves on the disk, at any point of it and after a crash: `writeJsonStoreAtomic` of
-- src/persistence/json-store.ts.
use mathlib.Core.Option.{some_inj}
use nexus_cloud.Base.{
  if◌then◌else◌, Bool-cases, WriteOutcome, saved, lost, replaced, ◌≡◌, refl, sym, ap, ◌∙◌, ◌⊎◌, inl,
  inr, true, false, Option, none, some, arith,
}
use nexus_cloud.Persistence.JsonStore.{Disk, Source, winner, write_json_store_atomic}
use nexus_cloud.Persistence.JsonStore.Recovery.{first_candidate-primary}
use nexus_cloud.Persistence.JsonStore.Writing.{
  File, Machine, Phase, Reach, Step, Survives, copy, copy_more, flush, give_up, give_up_late,
  give_up_littered, here, is_durable, is_open, next, no_copy, past_rename, rename, safe, seen,
  sync_backup, sync_directory, sync_temp, unsafe, write, write_part,
}

-- What the temporary file is in a phase.
abbrev TempIn : {C : Type 0} → C → Phase → Option (File C) → Type 0
TempIn payload Phase.written t = t ≡ some (unsafe payload)
TempIn payload Phase.ready t = t ≡ some (safe payload)
TempIn payload Phase.renamed t = t ≡ none
TempIn payload Phase.done t = t ≡ none
TempIn payload Phase.failed t = t ≡ none
TempIn {C} payload Phase.littered t = (f : File C) × (t ≡ some f)
TempIn payload Phase.unsynced t = t ≡ none
TempIn payload _ t = Unit

-- What is known in a phase of a write that began with a primary file, or none.
record Kept {C : Type 0} (payload : C) (first : Option (File C)) (p : Phase) (m : Machine C)
    : Type 0 where
  before : past_rename p ≡ false → m.primary ≡ first
  after : past_rename p ≡ true → m.primary ≡ some (safe payload)
  stable_is :
      ((m.stable ≡ first) × (is_durable p ≡ false))
      ⊎ ((m.stable ≡ some (safe payload)) × (past_rename p ≡ true))
  phase_temp : TempIn payload p m.temp

-- A phase before the rename is not durable, and one of the `try` is before it.
open-before : (p : Phase) → is_open p ≡ true → past_rename p ≡ false
open-before p h = ground arith

before-not_durable : (p : Phase) → past_rename p ≡ false → is_durable p ≡ false
before-not_durable p h = ground arith

module _ {C : Type 0} (payload : C) {first : Option (File C)} where
  -- A step before the rename leaves the primary file, and what its name leads to.
  Kept-open :
      {p : Phase} {m : Machine C} (q : Phase) (n : Machine C)
      → past_rename p ≡ false
      → past_rename q ≡ false
      → n.primary ≡ m.primary
      → n.stable ≡ m.stable
      → TempIn payload q n.temp
      → Kept payload first p m
      → Kept payload first q n
  Kept-open {p} q n hp hq same held t k = record {
    before = λ _. same ∙ k.before hp;
    after = λ b. let bad = sym b ∙ hq in cc;
    stable_is = elim k.stable_is [
      | inl (is, _) ↦ inl (held ∙ is, before-not_durable q hq)
      | inr (_, late) ↦ let bad = sym late ∙ hp in absurd (ground (arith, bad))
    ];
    phase_temp = t;
  }

  Step-Kept :
      {p q : Phase} {m n : Machine C}
      → Step payload p m q n
      → Kept payload first p m
      → Kept payload first q n
  Step-Kept (no_copy m) k = Kept-open Phase.backed _ refl refl refl refl tt k
  Step-Kept (copy m f part h) k = Kept-open Phase.copying _ refl refl refl refl tt k
  Step-Kept (copy_more m part) k = Kept-open Phase.copying _ refl refl refl refl tt k
  Step-Kept (sync_backup m f h) k = Kept-open Phase.backed _ refl refl refl refl tt k
  Step-Kept (write_part m part) k = Kept-open Phase.backed _ refl refl refl refl tt k
  Step-Kept (write m) k = Kept-open Phase.written _ refl refl refl refl refl k
  Step-Kept (sync_temp m f h) k =
      let same = some_inj.0 (sym h ∙ k.phase_temp) in
      Kept-open Phase.ready _ refl refl refl refl (ap (λ x. some (safe x.text)) same) k
  Step-Kept (rename m f h) k = record {
    before = λ b. cc;
    after = λ _. sym h ∙ k.phase_temp;
    stable_is = elim k.stable_is [
      | inl (is, _) ↦ inl (is, refl)
      | inr (_, late) ↦ absurd (ground (arith, late))
    ];
    phase_temp = refl;
  }
  Step-Kept (sync_directory m) k = record {
    before = λ b. cc;
    after = λ _. k.after refl;
    stable_is = inr (k.after refl, refl);
    phase_temp = k.phase_temp;
  }
  Step-Kept (flush p m) k = record {
    before = k.before;
    after = k.after;
    stable_is = elim (Bool-cases (past_rename p)) [
      | inl late ↦ inr (k.after late, late)
      | inr early ↦ inl (k.before early, before-not_durable p early)
    ];
    phase_temp = k.phase_temp;
  }
  Step-Kept (give_up p m h) k = Kept-open Phase.failed _ (open-before p h) refl refl refl refl k
  Step-Kept (give_up_littered p m f h t) k =
      Kept-open Phase.littered _ (open-before p h) refl refl refl (f, t) k
  Step-Kept (give_up_late m) k = record {
    before = λ b. cc;
    after = λ _. k.after refl;
    stable_is = elim k.stable_is [ inl (is, _) ↦ inl (is, refl) | inr (is, _) ↦ inr (is, refl) ];
    phase_temp = k.phase_temp;
  }

Reach-Kept :
    {C : Type 0} (payload : C) (start : Machine C) {p : Phase} {m : Machine C}
    → start.stable ≡ start.primary
    → Reach payload start p m
    → Kept payload start.primary p m
Reach-Kept payload start h here = record {
  before = λ _. refl;
  after = λ b. cc;
  stable_is = inl (h, refl);
  phase_temp = tt;
}
Reach-Kept payload start h (next r s) = Step-Kept payload s (Reach-Kept payload start h r)

-- Where the primary file can be read and is safe at the start of a write, at any point of the write and
-- after any failure in it a process reads the primary file: with the old value up to the rename and
-- where the write gave up before it, and with the new value from the rename on. After a crash at any
-- such point the next load answers from the primary file as well: with the new value once the directory
-- is synced, with the old value before the rename, and with one of the two in between.
pub crash_keeps_a_value :
    {C T : Type 0} (read : C → Option T) (payload : C) (new : T) (start : Machine C) (c : C)
    (old : T) (p : Phase) (m : Machine C) (d : Disk C)
    → read payload ≡ some new
    → start.primary ≡ some (safe c)
    → start.stable ≡ some (safe c)
    → read c ≡ some old
    → Reach payload start p m
    → Survives m d
    → (winner read (seen m) ≡ some (Source.primary, if past_rename p then new else old))
      × (((winner read d ≡ some (Source.primary, old)) × (is_durable p ≡ false))
          ⊎ ((winner read d ≡ some (Source.primary, new)) × (past_rename p ≡ true)))
unfolding winner
crash_keeps_a_value read payload new start c old p m d whole h stable readable r s =
    let k = Reach-Kept payload start (stable ∙ sym h) r in
    (
      elim (Bool-cases (past_rename p)) [
        | inl e ↦ rw (k.after e) (rw whole (rw e (first_candidate-primary new _ _)))
        | inr e ↦ rw (k.before e) (rw h (rw readable (rw e (first_candidate-primary old _ _))))
      ],
      elim k.stable_is [
        | inl (is, early) ↦
            let kept = (rw h at (rw is at s)) refl in
            inl (rw kept (rw readable (first_candidate-primary old _ _)), early)
        | inr (is, late) ↦
            let kept = (rw is at s) refl in
            inr (rw kept (rw whole (first_candidate-primary new _ _)), late)
      ],
    )

-- The phase in which a write ends, by its outcome and what is left of the temporary file.
abbrev pub phase_of : {C : Type 0} → WriteOutcome → Option C → Phase
phase_of saved left = Phase.done
phase_of lost none = Phase.failed
phase_of lost (some c) = Phase.littered
phase_of replaced left = Phase.unsynced

-- A run that is over is one of the outcomes: in its phase, its two files and its answer.
abbrev pub IsOutcome : {C : Type 0} → C → Disk C → Phase → Disk C → Type 0
IsOutcome {C} payload start p end =
    (o : WriteOutcome) × (left : Option C) × (phase_of o left ≡ p)
    × (end.primary ≡ (write_json_store_atomic o left payload start).1.primary)
    × (end.temp ≡ (write_json_store_atomic o left payload start).1.temp)
    × ((write_json_store_atomic o left payload start).0 ≡ is_durable p)
