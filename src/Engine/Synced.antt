-- ===== src/Engine/Synced.antt =====
-- The master index beside the store, under the callback of embers/db.py.
use embers_diaries.Prelude.{
  String, false, List, ◌≡◌, refl, arith, ◌==◌, eq_iff, if◌then◌else◌, member, member-add,
}
use embers_diaries.Dict
use embers_diaries.Core.Record.{EmberRecord, Value, Hashing}
use embers_diaries.Storage.{
  Disk, Encoding, StorageLimits, RecordFile, Supersession, Deprecation, WriteDraw, write_steps,
  run_steps, empty_disk,
}
use embers_diaries.Storage.Frame.{run_steps-write_steps}
use embers_diaries.Storage.Recovery.{get-write_record_file}
use embers_diaries.Index.Master
use embers_diaries.Index.Master.{MasterIndex, Meta}
use embers_diaries.Index.Master.Frame.{
  records-index_record, superseded-index_record, deprecated-index_record,
}
use embers_diaries.Engine.State.{Engine, UpdateDraw, on_write, index_record, meta_of}
use embers_diaries.Engine.Writer.{get_superseded_by, mark_superseded, new_version, UpdateArgs}
use embers_diaries.Engine.Cases.{updated, sealed_version}
use embers_diaries.Engine.Operations.{
  Op, run_ops, run_induction, Effect, nothing, wrote, updated_to, deprecated, annotated, accessed,
}

-- The index lists the records that have a file and no other, knows the successor of every record
-- (the empty text is no id), and has deprecated exactly what the sidecars have.
pub record IsSynced (d : Disk) (x : MasterIndex) : Type 0 where
  pub records : (k : String) → Dict.contains x.records k ≡ Dict.contains d.records k
  pub superseded :
      (k : String) → (k == "") ≡ false → Dict.get x.superseded k ≡ get_superseded_by d k
  pub deprecated : (k : String) → member k x.deprecated ≡ Dict.contains d.deprecations k

-- A stored record and its entry in the index.
stored-IsSynced :
    (w : WriteDraw) (r : EmberRecord) (d : Disk) (x : MasterIndex)
    → IsSynced d x
    → IsSynced (run_steps (write_steps w r) d) (index_record r x)
unfolding index_record get_superseded_by
stored-IsSynced w r d x h = rw (run_steps-write_steps w r d) (record {
  records = λ k. ground (
    arith,
    h.records k,
    records-index_record r.id (meta_of r) x,
    Dict.get-put x.records r.id k (meta_of r),
    get-write_record_file r d k,
    eq_iff r.id k,
  );
  superseded = λ k n. rw (superseded-index_record r.id (meta_of r) x) (h.superseded k n);
  deprecated = λ k. rw (deprecated-index_record r.id (meta_of r) x) (h.deprecated k);
})

-- A sidecar and its entry in the index.
marked-IsSynced :
    (old_id new_id : String) (sup : Supersession) (d : Disk) (x : MasterIndex)
    → sup.new_id ≡ new_id
    → IsSynced d x
    → IsSynced
        (record d { supersessions = Dict.put d.supersessions old_id sup })
        (if old_id == "" then x else Master.mark_superseded old_id new_id x)
unfolding get_superseded_by Master.mark_superseded
marked-IsSynced old_id new_id sup d x e h = record {
  records = λ k. ground (arith, h.records k);
  superseded = λ k n. ground (
    arith,
    h.superseded k n,
    Dict.get-put d.supersessions old_id k sup,
    Dict.get-put x.superseded old_id k new_id,
    eq_iff old_id k,
    e,
  );
  deprecated = λ k. ground (arith, h.deprecated k);
}

module _ ⦃h : Hashing⦄ ⦃c : Encoding⦄ (limits : StorageLimits) where
  updated-IsSynced :
      (u : UpdateDraw) (old_id : String) (content : Value) (args : UpdateArgs) (old : EmberRecord)
      (s : Engine)
      → IsSynced s.disk s.index
      → let t = updated limits u old_id content args old s in IsSynced t.disk t.index
  unfolding on_write mark_superseded new_version
  updated-IsSynced u old_id content args old s h =
      let r = sealed_version limits u old_id content args old in
      marked-IsSynced old_id u.new_id _ (run_steps (write_steps u.write_draw r) s.disk)
        (index_record r s.index) refl (stored-IsSynced u.write_draw r s.disk s.index h)

  Effect-IsSynced :
      (op : Op) (s t : Engine)
      → Effect limits op s t
      → IsSynced s.disk s.index
      → IsSynced t.disk t.index
  unfolding on_write get_superseded_by Master.mark_deprecated
  Effect-IsSynced op s t (nothing e) h = rw e h
  Effect-IsSynced op s t (wrote w r new e) h = rw e (stored-IsSynced w r s.disk s.index h)
  Effect-IsSynced op s t (updated_to u id old_id content args old same found e) h =
      rw e (updated-IsSynced u old_id content args old s h)
  Effect-IsSynced op s t (deprecated id dep there new e) h = rw e (record {
    records = h.records;
    superseded = h.superseded;
    deprecated = λ k. ground (
      arith,
      h.deprecated k,
      member-add k id s.index.deprecated,
      Dict.get-put s.disk.deprecations id k dep,
    );
  })
  Effect-IsSynced op s t (annotated id a e) h =
      rw e (record { records = h.records; superseded = h.superseded; deprecated = h.deprecated })
  Effect-IsSynced op s t (accessed id a e) h =
      rw e (record { records = h.records; superseded = h.superseded; deprecated = h.deprecated })

  -- From a synchronised store and index, such as the empty ones, every run of calls leaves them
  -- synchronised, also where calls raise.
  pub run_ops-IsSynced :
      (ops : List Op) (s : Engine)
      → IsSynced s.disk s.index
      → IsSynced (run_ops limits ops s).disk (run_ops limits ops s).index
  run_ops-IsSynced ops s h =
      run_induction limits (λ t. IsSynced t.disk t.index) Effect-IsSynced ops s h

pub empty-IsSynced : IsSynced empty_disk Master.empty
unfolding get_superseded_by
empty-IsSynced = record {
  records = λ k. cc (Dict.get-empty {V = RecordFile} k, Dict.get-empty {V = Meta} k);
  superseded =
      λ k n. ground (arith, Dict.get-empty {V = Supersession} k, Dict.get-empty {V = String} k);
  deprecated = λ k. ground (arith, Dict.get-empty {V = Deprecation} k);
}
