-- ===== src/Engine/Lineage.antt =====
-- The version links that `WriteEngine.update` makes (embers/engine/writer.py), and what calls do to
-- them.
use embers_diaries.Prelude.{
  ℕ, ◌+◌, String, false, some, List, ◌≡◌, refl, sym, ◌∙◌, arith, ◌==◌, eq_iff, eq_refl, inl, inr,
  Bool-cases, if◌then◌else◌, subst,
}
use embers_diaries.Dict
use embers_diaries.Core.Record.{
  EmberRecord, Value, Hashing, compute_content_hash, canonical_hash_payload,
}
use embers_diaries.Core.Result.{ok}
use embers_diaries.Storage
use embers_diaries.Storage.{
  Disk, Encoding, StorageLimits, RecordFile, stored, Supersession, WriteDraw, write_record_file,
  write_steps, run_steps, empty_disk,
}
use embers_diaries.Storage.Frame.{run_steps-write_steps}
use embers_diaries.Storage.Recovery.{get-write_record_file}
use embers_diaries.Storage.Reads.{read-stored}
use embers_diaries.Engine.State.{Engine, UpdateDraw}
use embers_diaries.Engine.Writer.{
  get_superseded_by, mark_superseded, new_version, UpdateArgs, hash_of,
}
use embers_diaries.Engine.Cases.{updated, sealed_version}
use embers_diaries.Engine.AppendOnly.{Preserved, Effect-Preserved}
use embers_diaries.Engine.Operations.{
  Op, update_op, run_ops, run_fresh_induction, IsFreshOp, AllFresh, Effect, nothing, wrote,
  updated_to, deprecated, annotated, accessed,
}

module _ ⦃h : Hashing⦄ where
  -- The new record names the old one, is the next version, and carries the old one's hash and its own.
  pub record Link (d : Disk) (old_id new_id : String) : Type 0 where
    pub old : EmberRecord
    pub new : EmberRecord
    pub old_stored : Dict.get d.records old_id ≡ some (stored old)
    pub new_stored : Dict.get d.records new_id ≡ some (stored new)
    pub names : new.supersedes ≡ some old_id
    pub version : new.version ≡ old.version + 1
    pub parent : new.parent_hash ≡ some (hash_of old)
    pub sealed : new.content_hash ≡ some (compute_content_hash new)

  abbrev pub IsLineage : Disk → Type 0
  IsLineage d =
      (old_id new_id : String) → get_superseded_by d old_id ≡ some new_id → Link d old_id new_id

  Link-Preserved : {a b : Disk} {k j : String} → Preserved a b → Link a k j → Link b k j
  Link-Preserved {k = k} {j = j} p l = record {
    old = l.old;
    new = l.new;
    old_stored = p.records k (stored l.old) l.old_stored;
    new_stored = p.records j (stored l.new) l.new_stored;
    names = l.names;
    version = l.version;
    parent = l.parent;
    sealed = l.sealed;
  }

-- A write adds no sidecar.
pub superseded_by-run_steps :
    (w : WriteDraw) (r : EmberRecord) (d : Disk) (k : String)
    → get_superseded_by (run_steps (write_steps w r) d) k ≡ get_superseded_by d k
unfolding get_superseded_by
superseded_by-run_steps w r d k = rw (run_steps-write_steps w r d)

pub superseded_by-mark_superseded :
    (old new : String) (now : ℕ) (d : Disk) (k : String)
    → get_superseded_by (mark_superseded old new now d) k
      ≡ (if old == k then some new else get_superseded_by d k)
unfolding get_superseded_by mark_superseded
superseded_by-mark_superseded old new now d k = ground (
  arith,
  Dict.get-put d.supersessions old k (record { old_id = old; new_id = new; timestamp = now }),
)

module _ ⦃h : Hashing⦄ ⦃c : Encoding⦄ (limits : StorageLimits) where
  pub superseded_by-updated :
      (u : UpdateDraw) (old_id : String) (content : Value) (args : UpdateArgs) (old : EmberRecord)
      (s : Engine) (k : String)
      → get_superseded_by (updated limits u old_id content args old s).disk k
        ≡ (if old_id == k then some u.new_id else get_superseded_by s.disk k)
  superseded_by-updated u old_id content args old s k =
      superseded_by-mark_superseded old_id u.new_id u.write_draw.now _ k
      ∙ rw (
          superseded_by-run_steps u.write_draw (sealed_version limits u old_id content args old)
            s.disk k)

  -- The link that an update makes.
  pub new-Link :
      (u : UpdateDraw) (old_id : String) (content : Value) (args : UpdateArgs) (old : EmberRecord)
      (s : Engine)
      → Storage.exists u.new_id s.disk ≡ false
      → Storage.read old_id s.disk ≡ ok (some old)
      → Link (updated limits u old_id content args old s).disk old_id u.new_id
  unfolding new_version mark_superseded Storage.exists compute_content_hash canonical_hash_payload
  new-Link u old_id content args old s fresh found =
      let r = sealed_version limits u old_id content args old in
      let kept = get-write_record_file r s.disk in
      rw (run_steps-write_steps u.write_draw r s.disk) (record {
        old = old;
        new = r;
        old_stored =
            ground (arith, kept old_id, read-stored old_id s.disk found, eq_iff u.new_id old_id);
        new_stored = ground (arith, kept u.new_id, eq_refl u.new_id);
        names = refl;
        version = refl;
        parent = refl;
        sealed = refl;
      })

  keeps_links :
      (op : Op) (s t : Engine)
      → Effect limits op s t
      → ((k : String) → get_superseded_by t.disk k ≡ get_superseded_by s.disk k)
      → IsLineage s.disk
      → IsLineage t.disk
  keeps_links op s t e same l k j p =
      Link-Preserved (Effect-Preserved limits op s t e) (l k j (sym (same k) ∙ p))

  pub updated-IsLineage :
      (op : Op) (u : UpdateDraw) (id old_id : String) (content : Value) (args : UpdateArgs)
      (old : EmberRecord) (s : Engine)
      → op ≡ update_op u id content args
      → Storage.exists u.new_id s.disk ≡ false
      → Storage.read old_id s.disk ≡ ok (some old)
      → IsLineage s.disk
      → IsLineage (updated limits u old_id content args old s).disk
  updated-IsLineage op u id old_id content args old s same fresh found l k j p =
      let t = updated limits u old_id content args old s in
      let q = sym (superseded_by-updated u old_id content args old s k) ∙ p in
      elim (Bool-cases (old_id == k)) [
        | inl here ↦
            subst (λ x. Link t.disk x j) ((eq_iff old_id k).0 here)
              (subst (λ x. Link t.disk old_id x) (ground (arith, q))
                (new-Link u old_id content args old s fresh found))
        | inr there ↦
            Link-Preserved
              (Effect-Preserved limits op s t
                (updated_to u id old_id content args old same found refl))
              (l k j (rw there at q))
      ]

  pub Effect-IsLineage :
      (op : Op) (s t : Engine)
      → IsFreshOp limits op s
      → Effect limits op s t
      → IsLineage s.disk
      → IsLineage t.disk
  unfolding get_superseded_by
  Effect-IsLineage op s t f (nothing e) l = rw e l
  Effect-IsLineage op s t f (wrote w r new e) l =
      keeps_links op s t (wrote w r new e) (λ k. rw e (superseded_by-run_steps w r s.disk k)) l
  Effect-IsLineage op s t f (updated_to u id old_id content args old same found e) l =
      let fresh = subst (λ o. IsFreshOp limits o s) same f in
      rw e (updated-IsLineage op u id old_id content args old s same fresh found l)
  Effect-IsLineage op s t f (deprecated id dep there new e) l =
      keeps_links op s t (deprecated id dep there new e) (λ k. rw e) l
  Effect-IsLineage op s t f (annotated id a e) l =
      keeps_links op s t (annotated id a e) (λ k. rw e) l
  Effect-IsLineage op s t f (accessed id a e) l = keeps_links op s t (accessed id a e) (λ k. rw e) l

  -- As long as every drawn id is unused, each sidecar that a run of calls leaves joins two stored
  -- records: the new one names the old one, is the next version, carries the old one's hash as its
  -- parent hash, and is sealed.
  pub run_ops-IsLineage :
      (ops : List Op) (s : Engine)
      → AllFresh limits ops s
      → IsLineage s.disk
      → IsLineage (run_ops limits ops s).disk
  run_ops-IsLineage ops s fresh l =
      run_fresh_induction limits (λ t. IsLineage t.disk) Effect-IsLineage ops s fresh l

module _ ⦃h : Hashing⦄ where
  pub empty-IsLineage : IsLineage empty_disk
  unfolding get_superseded_by
  empty-IsLineage k j p = absurd (ground (arith, Dict.get-empty {V = Supersession} k))
