-- ===== src/Engine/Sound.antt =====
-- The state that calls of the write engine leave, as its clients rely on it (embers/engine/writer.py).
use embers_diaries.Prelude.{
  String, true, some, List, ◌≡◌, arith, ◌==◌, eq_iff, inl, inr, Bool-cases,
}
use embers_diaries.Dict
use embers_diaries.Core.Record.{EmberRecord, Value, Hashing}
use embers_diaries.Storage.{
  Disk, Encoding, StorageLimits, RecordFile, stored, Deprecation, WriteDraw, write_record_file,
  write_steps, run_steps, empty_disk,
}
use embers_diaries.Storage
use embers_diaries.Storage.Frame.{run_steps-write_steps}
use embers_diaries.Storage.Recovery.{get-write_record_file}
use embers_diaries.Engine.State.{Engine, UpdateDraw}
use embers_diaries.Engine.Writer.{mark_superseded, UpdateArgs}
use embers_diaries.Engine.Cases.{sealed_version, updated}
use embers_diaries.Engine.Operations.{
  Op, run_ops, run_fresh_induction, AllFresh, Effect, nothing, wrote, updated_to, deprecated,
  annotated, accessed,
}
use embers_diaries.Engine.Lineage.{IsLineage, Effect-IsLineage, empty-IsLineage}

-- Each record file holds a record under its own id, and only stored records are deprecated.
pub record IsFiled (d : Disk) : Type 0 where
  pub named : (k : String) (r : EmberRecord) → Dict.get d.records k ≡ some (stored r) → r.id ≡ k
  pub marked : (k : String) → Dict.contains d.deprecations k ≡ true → Storage.exists k d ≡ true

run_steps-IsFiled :
    (w : WriteDraw) (r : EmberRecord) (d : Disk)
    → IsFiled d
    → IsFiled (run_steps (write_steps w r) d)
unfolding Storage.exists
run_steps-IsFiled w r d h = rw (run_steps-write_steps w r d) (record {
  named = λ k q p. elim (Bool-cases (Dict.contains d.records r.id)) [
    | inl there ↦ h.named k q (ground (arith, p, there, get-write_record_file r d k))
    | inr absent ↦ elim (Bool-cases (r.id == k)) [
      | inl same ↦ ground (arith, p, absent, same, get-write_record_file r d k, eq_iff r.id k)
      | inr other ↦ h.named k q (ground (arith, p, absent, other, get-write_record_file r d k))
    ]
  ];
  marked = λ k p. ground (arith, h.marked k p, get-write_record_file r d k);
})

module _ ⦃h : Hashing⦄ where
  -- What clients of the engine may assume of a disk.
  abbrev pub IsSound : Disk → Type 0
  IsSound d = IsLineage d × IsFiled d

module _ ⦃h : Hashing⦄ ⦃c : Encoding⦄ (limits : StorageLimits) where
  pub updated-IsFiled :
      (u : UpdateDraw) (old_id : String) (content : Value) (args : UpdateArgs) (old : EmberRecord)
      (s : Engine)
      → IsFiled s.disk
      → IsFiled (updated limits u old_id content args old s).disk
  unfolding mark_superseded Storage.exists
  updated-IsFiled u old_id content args old s f =
      let r = sealed_version limits u old_id content args old in
      let kept = run_steps-IsFiled u.write_draw r s.disk f in
      record { named = kept.named; marked = kept.marked }

  Effect-IsFiled : (op : Op) (s t : Engine) → Effect limits op s t → IsFiled s.disk → IsFiled t.disk
  unfolding Storage.exists
  Effect-IsFiled op s t (nothing e) f = rw e f
  Effect-IsFiled op s t (wrote w r new e) f = rw e (run_steps-IsFiled w r s.disk f)
  Effect-IsFiled op s t (updated_to u id old_id content args old same found e) f =
      rw e (updated-IsFiled u old_id content args old s f)
  Effect-IsFiled op s t (deprecated id dep there new e) f = rw e (record {
    named = f.named;
    marked = λ k p.
        ground
          (arith, f.marked k, there, Dict.get-put s.disk.deprecations id k dep, eq_iff id k, p);
  })
  Effect-IsFiled op s t (annotated id a e) f = rw e (record { named = f.named; marked = f.marked })
  Effect-IsFiled op s t (accessed id a e) f = rw e (record { named = f.named; marked = f.marked })

  -- As long as every drawn id is unused, every run of calls keeps this: each version link joins two
  -- stored records and binds the new one to the old one, each record stands under its own id, and
  -- only stored records are deprecated.
  pub run_ops-IsSound :
      (ops : List Op) (s : Engine)
      → AllFresh limits ops s
      → IsSound s.disk
      → IsSound (run_ops limits ops s).disk
  run_ops-IsSound ops s fresh sound =
      run_fresh_induction limits (λ t. IsSound t.disk)
        (λ op a b new e p. (Effect-IsLineage limits op a b new e p.0, Effect-IsFiled op a b e p.1))
        ops s fresh sound

module _ ⦃h : Hashing⦄ where
  pub empty-IsSound : IsLineage empty_disk × IsFiled empty_disk
  empty-IsSound = (
    empty-IsLineage,
    record {
      named = λ k r p. absurd (ground (arith, p, Dict.get-empty {V = RecordFile} k));
      marked = λ k p. absurd (ground (arith, p, Dict.get-empty {V = Deprecation} k));
    },
  )
