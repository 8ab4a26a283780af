-- ===== src/Engine/Written.antt =====
-- A record that `WriteEngine.write` just stored, as the reads of embers/engine/reader.py show it and as
-- the master index lists it.
use embers_diaries.Prelude.{
  String, Bool, true, false, none, some, [], ◌∷◌, ◌≡◌, refl, sym, ap, ◌∙◌, subst, arith, ◌==◌,
  member, Option-cases, inl, inr,
}
use embers_diaries.Core.Record.{EmberRecord, Hashing}
use embers_diaries.Core.Result.{ok}
use embers_diaries.Storage
use embers_diaries.Storage.{Disk, Encoding, StorageLimits, WriteDraw, write_steps, run_steps}
use embers_diaries.Storage.Frame.{run_steps-write_steps}
use embers_diaries.Index.Master.{get_namespace_ids, set_at}
use embers_diaries.Index.Master.Frame.{
  namespaces-index_record, listed-get_namespace_ids, set_at-add_at,
}
use embers_diaries.Engine.State.{Engine, meta_of, on_write, index_record}
use embers_diaries.Engine.Writer.{write, is_deprecated, get_superseded_by}
use embers_diaries.Engine.Reader.{get, get_current, hidden, overlay, successor}
use embers_diaries.Engine.AppendOnly.{Preserved, run_ops-Preserved}
use embers_diaries.Engine.Cases.{write_cases, written}
use embers_diaries.Engine.Cas.{head_of}
use embers_diaries.Engine.Chain.{Follows, here, onward, last_of-get_supersession_chain}
use embers_diaries.Engine.Current.{get_current_lem}
use embers_diaries.Engine.Lineage.{IsLineage, superseded_by-run_steps}
use embers_diaries.Engine.Operations.{write_op, run_ops, apply_op}
use embers_diaries.Engine.ReadBack.{read-write, with_hash, seal-ok}
use embers_diaries.Engine.Sound.{IsSound, run_ops-IsSound}
use embers_diaries.Engine.Synced.{IsSynced, run_ops-IsSynced}

module _ ⦃h : Hashing⦄ where
  -- Nothing is said of an id that is not in use.
  live-run_steps :
      (w : WriteDraw) (r : EmberRecord) (d : Disk) (k : String)
      → IsSound d
      → Storage.exists k d ≡ false
      → is_deprecated (run_steps (write_steps w r) d) k ≡ false
  unfolding is_deprecated
  live-run_steps w r d k sound absent =
      rw (run_steps-write_steps w r d) (ground (arith, absent, sound.1.marked k))

  pub last_version :
      (d : Disk) (k : String)
      → IsSound d
      → Storage.exists k d ≡ false
      → get_superseded_by d k ≡ none
  unfolding Storage.exists
  last_version d k sound absent = elim (Option-cases (get_superseded_by d k)) [
    | inl e ↦ e
    | inr (j, e) ↦ absurd (ground (arith, absent, (sound.0 k j e).old_stored))
  ]

  -- A stored record that nothing has deprecated or superseded.
  pub record IsLatest (d : Disk) (r : EmberRecord) : Type 0 where
    pub found : Storage.read r.id d ≡ ok (some r)
    pub live : is_deprecated d r.id ≡ false
    pub last : get_superseded_by d r.id ≡ none

  -- Whatever the filters, it is shown, under its overlays.
  pub get-IsLatest :
      (dep sup : Bool) (d : Disk) (r : EmberRecord)
      → IsLatest d r
      → get d dep sup r.id ≡ ok (some (overlay d r.id r))
  unfolding get hidden successor
  get-IsLatest dep sup d r l = rw (l.found, l.live, l.last) refl

  Follows-own :
      (d : Disk) (first : String) {x : String}
      → get_superseded_by d first ≡ none
      → Follows d first x
      → x ≡ first
  Follows-own d first e here = refl
  Follows-own d first e (onward {b = b} f q) =
      absurd (ground (arith, q, e, ap (λ k. get_superseded_by d k) (Follows-own d first e f)))

  -- It is the current version of itself.
  pub get_current-IsLatest :
      (d : Disk) (r : EmberRecord)
      → IsLineage d
      → IsLatest d r
      → get_current d r.id ≡ ok (some (overlay d r.id r))
  get_current-IsLatest d r lineage l =
      let top : head_of d r.id ≡ r.id =
        Follows-own d r.id l.last (last_of-get_supersession_chain d lineage r.id).0 in
      get_current_lem d r.id lineage ∙ rw (top, l.found, l.live) refl

module _ ⦃h : Hashing⦄ ⦃c : Encoding⦄ (limits : StorageLimits) (w : WriteDraw) (r : EmberRecord)
    (s t : Engine) (id : String) (done : write limits w r s ≡ (ok id, t)) where
  pub write-IsLatest : IsSound s.disk → IsLatest t.disk (with_hash r)
  write-IsLatest sound = elim (write_cases limits w r s) [
    | inr (e, q) ↦ absurd (ground (arith, done, q))
    | inl wrote ↦
        let (own, found) = read-write limits w r s t id done in
        let same : t ≡ written limits w wrote.sealed s = ap (λ x. x.1) (sym done ∙ wrote.result) in
        let key : wrote.sealed.id ≡ r.id =
          ap (λ (x : EmberRecord). x.id) (sym (seal-ok r wrote.sealed wrote.sealing)) in
        let absent : Storage.exists r.id s.disk ≡ false =
          subst (λ k. Storage.exists k s.disk ≡ false) key wrote.absent in
        record {
          found = subst (λ k. Storage.read k t.disk ≡ ok (some (with_hash r))) own found;
          live =
              ap (λ (x : Engine). is_deprecated x.disk r.id) same
              ∙ live-run_steps w wrote.sealed s.disk r.id sound absent;
          last =
              ap (λ (x : Engine). get_superseded_by x.disk r.id) same
              ∙ superseded_by-run_steps w wrote.sealed s.disk r.id
              ∙ last_version s.disk r.id sound absent;
        }
  ]

  after_run : t ≡ run_ops limits (write_op w r ∷ []) s
  unfolding run_ops apply_op
  after_run = ap (λ x. x.1) (sym done)

  pub write-IsSound : IsSound s.disk → IsSound t.disk
  write-IsSound sound =
      subst (λ (x : Engine). IsSound x.disk) (sym after_run)
        (run_ops-IsSound limits (write_op w r ∷ []) s (tt, tt) sound)

  pub write-IsSynced : IsSynced s.disk s.index → IsSynced t.disk t.index
  write-IsSynced synced =
      subst (λ (x : Engine). IsSynced x.disk x.index) (sym after_run)
        (run_ops-IsSynced limits (write_op w r ∷ []) s synced)

  pub write-Preserved : Preserved s.disk t.disk
  write-Preserved =
      subst (λ (x : Engine). Preserved s.disk x.disk) (sym after_run)
        (run_ops-Preserved limits (write_op w r ∷ []) s)

  -- The master index lists it in its namespace, deprecated records included or not.
  pub get_namespace_ids-write :
      IsSound s.disk
      → IsSynced s.disk s.index
      → (r.id == "") ≡ false
      → member r.id (get_namespace_ids t.index r.namespace true false) ≡ true
  unfolding on_write index_record
  get_namespace_ids-write sound synced named = elim (write_cases limits w r s) [
    | inr (e, q) ↦ absurd (ground (arith, done, q))
    | inl wrote ↦
        let same : t ≡ written limits w (with_hash r) s =
          subst (λ x. t ≡ written limits w x s) (sym (seal-ok r wrote.sealed wrote.sealing))
            (ap (λ x. x.1) (sym done ∙ wrote.result)) in
        let set =
          ap (λ (x : Engine). set_at x.index.namespaces r.namespace) same
          ∙ ap (λ n. set_at n r.namespace)
              (namespaces-index_record r.id (meta_of (with_hash r)) s.index) in
        listed-get_namespace_ids t.index r.id r.namespace
          (ap (λ l. member r.id l) set ∙ set_at-add_at s.index.namespaces r.namespace r.id)
          ((write-IsSynced synced).superseded r.id named ∙ (write-IsLatest sound).last)
  ]
