-- ===== src/Engine/AppendOnly.antt =====
-- What runs of the write engine's calls keep of the store (embers/engine/writer.py).
use embers_diaries.Prelude.{
  String, true, false, some, List, [], ◌∷◌, ◌++◌, ◌≡◌, refl, sym, arith, ◌==◌, eq_iff, inl, inr,
  Bool-cases, append-nil, append_assoc,
}
use embers_diaries.Dict
use embers_diaries.Core.Record.{EmberRecord, Annotation, Time, Hashing}
use embers_diaries.Wal.{Line, pending, committed}
use embers_diaries.Storage.{
  RecordFile, Disk, Deprecation, Access, Encoding, StorageLimits, WriteDraw, write_steps, run_steps,
  wal_entry,
}
use embers_diaries.Storage.Frame.{run_steps-write_steps}
use embers_diaries.Storage.Recovery.{get-write_record_file}
use embers_diaries.Engine.State.{Engine}
use embers_diaries.Engine.Writer.{get_annotations, is_deprecated, mark_superseded}
use embers_diaries.Engine.Operations.{
  Op, with_deprecation, with_annotation, with_access, run_ops, run_induction, Effect, nothing,
  wrote, updated_to, deprecated, annotated, accessed,
}

-- What a later disk still holds of an earlier one.
pub record Preserved (a b : Disk) : Type 0 where
  pub records :
      (k : String) (f : RecordFile) → Dict.get a.records k ≡ some f → Dict.get b.records k ≡ some f
  pub log : (more : List Line) × (b.wal ≡ a.wal ++ more)
  pub supersessions :
      (k : String) → Dict.contains a.supersessions k ≡ true → Dict.contains b.supersessions k ≡ true
  pub deprecations :
      (k : String) (x : Deprecation)
      → Dict.get a.deprecations k ≡ some x
      → Dict.get b.deprecations k ≡ some x
  pub annotations :
      (k : String) → (more : List Annotation) × (get_annotations b k ≡ get_annotations a k ++ more)

pub Preserved-refl : (a : Disk) → Preserved a a
Preserved-refl a = record {
  records = λ k f h. h;
  log = ([], sym (append-nil a.wal));
  supersessions = λ k h. h;
  deprecations = λ k x h. h;
  annotations = λ k. ([], sym (append-nil _));
}

Preserved-trans : {a b c : Disk} → Preserved a b → Preserved b c → Preserved a c
Preserved-trans {a} p q = record {
  records = λ k f h. q.records k f (p.records k f h);
  log = (p.log.0 ++ q.log.0, rw (q.log.1, p.log.1) (append_assoc a.wal p.log.0 q.log.0));
  supersessions = λ k h. q.supersessions k (p.supersessions k h);
  deprecations = λ k x h. q.deprecations k x (p.deprecations k x h);
  annotations = λ k.
      let (m, e) = p.annotations k in
      let (n, f) = q.annotations k in (m ++ n, rw (f, e) (append_assoc _ m n));
}

-- A whole write keeps everything.
run_steps-Preserved :
    (w : WriteDraw) (r : EmberRecord) (d : Disk) → Preserved d (run_steps (write_steps w r) d)
unfolding get_annotations
run_steps-Preserved w r d = rw (run_steps-write_steps w r d) (record {
  records = λ k f h. ground (arith, get-write_record_file r d k, eq_iff r.id k);
  log = (pending (wal_entry w r) ∷ committed w.wal_id w.now ∷ [], refl);
  supersessions = λ k h. h;
  deprecations = λ k x h. h;
  annotations = λ k. ([], sym (append-nil _));
})

mark_superseded-Preserved :
    (old new : String) (now : Time) (d : Disk) → Preserved d (mark_superseded old new now d)
unfolding mark_superseded get_annotations
mark_superseded-Preserved old new now d = record {
  records = λ k f h. h;
  log = ([], sym (append-nil _));
  supersessions = λ k h. ground (
    arith,
    Dict.get-put d.supersessions old k (record { old_id = old; new_id = new; timestamp = now }),
  );
  deprecations = λ k x h. h;
  annotations = λ k. ([], sym (append-nil _));
}

with_deprecation-Preserved :
    (id : String) (dep : Deprecation) (s : Engine)
    → is_deprecated s.disk id ≡ false
    → Preserved s.disk (with_deprecation id dep s).disk
unfolding get_annotations is_deprecated
with_deprecation-Preserved id dep s new = record {
  records = λ k f h. h;
  log = ([], sym (append-nil _));
  supersessions = λ k h. h;
  deprecations =
      λ k x h. ground (arith, h, new, Dict.get-put s.disk.deprecations id k dep, eq_iff id k);
  annotations = λ k. ([], sym (append-nil _));
}

with_annotation-Preserved :
    (id : String) (a : Annotation) (s : Engine) → Preserved s.disk (with_annotation id a s).disk
unfolding get_annotations
with_annotation-Preserved id a s = record {
  records = λ k f h. h;
  log = ([], sym (append-nil _));
  supersessions = λ k h. h;
  deprecations = λ k x h. h;
  annotations = λ k.
      let found = Dict.get-put s.disk.annotations id k (get_annotations s.disk id ++ a ∷ []) in
      elim (Bool-cases (id == k)) [
        | inl same ↦ (a ∷ [], rw (found, same) (rw ((eq_iff id k).0 same)))
        | inr other ↦ ([], rw (found, other) (sym (append-nil _)))
      ];
}

with_access-Preserved :
    (id : String) (a : Access) (s : Engine) → Preserved s.disk (with_access id a s).disk
unfolding get_annotations
with_access-Preserved id a s = record {
  records = λ k f h. h;
  log = ([], sym (append-nil _));
  supersessions = λ k h. h;
  deprecations = λ k x h. h;
  annotations = λ k. ([], sym (append-nil _));
}

module _ ⦃h : Hashing⦄ ⦃c : Encoding⦄ (limits : StorageLimits) where
  pub Effect-Preserved : (op : Op) (s t : Engine) → Effect limits op s t → Preserved s.disk t.disk
  Effect-Preserved op s t (nothing e) = rw e (Preserved-refl s.disk)
  Effect-Preserved op s t (wrote w r new e) = rw e (run_steps-Preserved w r s.disk)
  Effect-Preserved op s t (updated_to u id old_id content args old same found e) = rw e (
      Preserved-trans (run_steps-Preserved u.write_draw _ s.disk)
        (mark_superseded-Preserved old_id u.new_id u.write_draw.now _))
  Effect-Preserved op s t (deprecated id dep there new e) =
      rw e (with_deprecation-Preserved id dep s new)
  Effect-Preserved op s t (annotated id a e) = rw e (with_annotation-Preserved id a s)
  Effect-Preserved op s t (accessed id a e) = rw e (with_access-Preserved id a s)

  -- Whatever is called, in any order, and whether the calls return or raise: record files and
  -- deprecations stay as they are, the log only grows, and annotations are only added. A record that
  -- is superseded stays superseded, though its sidecar may come to name another successor.
  pub run_ops-Preserved :
      (ops : List Op) (s : Engine) → Preserved s.disk (run_ops limits ops s).disk
  run_ops-Preserved ops s =
      run_induction limits (λ t. Preserved s.disk t.disk)
        (λ op t u e p. Preserved-trans p (Effect-Preserved op t u e)) ops s (Preserved-refl s.disk)
