-- ===== src/Engine/ReadBack.antt =====
-- Reading what `WriteEngine.write` stored (embers/engine/writer.py, embers/storage/store.py).
use embers_diaries.Prelude.{
  String, Option, false, some, none, ◌≡◌, refl, sym, ◌∙◌, ap, arith, eq_refl, inl, inr, subst,
}
use embers_diaries.Core.Record.{
  EmberRecord, Hashing, seal, compute_content_hash, canonical_hash_payload,
}
use embers_diaries.Core.Result.{ok}
use embers_diaries.Storage
use embers_diaries.Storage.{
  Disk, Encoding, StorageLimits, WriteDraw, write_steps, run_steps, stored,
}
use embers_diaries.Storage.Frame.{run_steps-write_steps}
use embers_diaries.Storage.Recovery.{get-write_record_file}
use embers_diaries.Storage.Reads.{read_sealed}
use embers_diaries.Engine.State.{Engine}
use embers_diaries.Engine.Writer.{write}
use embers_diaries.Engine.Cases.{write_cases, written}

module _ ⦃h : Hashing⦄ where
  abbrev pub with_hash : EmberRecord → EmberRecord
  with_hash r = record r { content_hash = some (compute_content_hash r) }

  pub seal-ok : (r sealed : EmberRecord) → seal r ≡ ok sealed → with_hash r ≡ sealed
  unfolding seal
  seal-ok r sealed p = by_hash r.content_hash refl
    where
      by_hash : (o : Option String) → r.content_hash ≡ o → with_hash r ≡ sealed
      by_hash none e = ground (arith, p, e)
      by_hash (some s) e = ground (arith, p, e)

  module _ ⦃c : Encoding⦄ (limits : StorageLimits) where
    pub read-run_steps :
        (w : WriteDraw) (r : EmberRecord) (d : Disk)
        → Storage.exists r.id d ≡ false
        → Storage.read r.id (run_steps (write_steps w (with_hash r)) d) ≡ ok (some (with_hash r))
    unfolding Storage.exists compute_content_hash canonical_hash_payload
    read-run_steps w r d absent = rw (run_steps-write_steps w (with_hash r) d) (
        read_sealed r.id _ (with_hash r)
          (get-write_record_file (with_hash r) d r.id ∙ ground (arith, absent, eq_refl r.id)) refl)

    -- A record whose write returned can be read under the id that was returned, which is its own: what
    -- is read is the record that was passed, with its hash attached.
    pub read-write :
        (w : WriteDraw) (r : EmberRecord) (s t : Engine) (id : String)
        → write limits w r s ≡ (ok id, t)
        → (id ≡ r.id) × (Storage.read id t.disk ≡ ok (some (with_hash r)))
    read-write w r s t id p = elim (write_cases limits w r s) [
      | inr (e, q) ↦ absurd (ground (arith, p, q))
      | inl done ↦
          let same = sym (seal-ok r done.sealed done.sealing) in
          let absent : Storage.exists r.id s.disk ≡ false =
            subst (λ (x : EmberRecord). Storage.exists x.id s.disk ≡ false) same done.absent in
          let left : (ok r.id, written limits w (with_hash r) s) ≡ (ok id, t) =
            subst (λ (x : EmberRecord). (ok x.id, written limits w x s) ≡ (ok id, t)) same
              (sym done.result ∙ p) in
          let own : r.id ≡ id = ground (arith, left) in
          (
            sym own,
            subst (λ (x : Engine). Storage.read id x.disk ≡ ok (some (with_hash r)))
                (ap (λ x. x.1) left)
                (subst
                  (λ (i : String).
                    Storage.read i (written limits w (with_hash r) s).disk
                    ≡ ok (some (with_hash r)))
                  own (read-run_steps w r s.disk absent)),
          )
    ]
