-- ===== src/Database/Rewritten.antt =====
-- An update of a record under its own id, whatever superseded the record before (embers/db.py).
use embers_diaries.Prelude.{
  String, false, none, some, ◌≡◌, ◌⊎◌, refl, sym, ap, ◌∙◌, arith, subst, ◌==◌, eq_iff, Bool-cases,
  inl, inr,
}
use embers_diaries.Core.Record.{EmberRecord, Value, Hashing}
use embers_diaries.Core.Result.{ok}
use embers_diaries.Storage
use embers_diaries.Storage.{Disk, Encoding, StorageLimits}
use embers_diaries.Storage.Reads.{read-stored}
use embers_diaries.Engine.State.{Engine, UpdateDraw}
use embers_diaries.Engine.Writer.{get_superseded_by, update, UpdateArgs, resolve_target}
use embers_diaries.Engine.Reader.{get_current, overlay}
use embers_diaries.Engine.Cases.{update_cases, updated, sealed_version}
use embers_diaries.Engine.Chain.{Follows, here, onward, last_of-get_supersession_chain}
use embers_diaries.Engine.Current.{get_current_lem}
use embers_diaries.Engine.Cas.{head_of}
use embers_diaries.Engine.Lineage.{superseded_by-updated, updated-IsLineage}
use embers_diaries.Engine.Operations.{update_op}
use embers_diaries.Engine.Sound.{IsSound}
use embers_diaries.Engine.Written.{last_version}
use embers_diaries.Database.Versions.{
  body, body-overlay, read-updated, live-updated, body-sealed_version,
}

-- A chain of two versions has no third.
Follows-two :
    (d : Disk) (first second : String) {x : String}
    → get_superseded_by d first ≡ some second
    → get_superseded_by d second ≡ none
    → Follows d first x
    → (x ≡ first) ⊎ (x ≡ second)
Follows-two d first second p q here = inl refl
Follows-two d first second p q (onward {b = b} f g) = elim (Follows-two d first second p q f) [
  | inl e ↦ inr (ground (arith, g, p, ap (λ k. get_superseded_by d k) e))
  | inr e ↦ absurd (ground (arith, g, q, ap (λ k. get_superseded_by d k) e))
]

module _ ⦃h : Hashing⦄ ⦃c : Encoding⦄ (limits : StorageLimits) (u : UpdateDraw) (content : Value)
    (args : UpdateArgs) (s : Engine) where
  head_of-updated :
      (id : String) (old : EmberRecord)
      → IsSound s.disk
      → Storage.exists u.new_id s.disk ≡ false
      → Storage.read id s.disk ≡ ok (some old)
      → head_of (updated limits u id content args old s).disk id ≡ u.new_id
  unfolding Storage.exists
  head_of-updated id old sound fresh found =
      let t = updated limits u id content args old s in
      let lineage =
        updated-IsLineage limits (update_op u id content args) u id id content args old s refl fresh
          found sound.0 in
      let own : (id == u.new_id) ≡ false = elim (Bool-cases (id == u.new_id)) [
        | inr e ↦ e
        | inl e ↦
            absurd (ground (arith, fresh, (eq_iff id u.new_id).0 e, read-stored id s.disk found))
      ] in
      let first : get_superseded_by t.disk id ≡ some u.new_id =
        superseded_by-updated limits u id content args old s id ∙ ground (arith, eq_iff id id) in
      let second : get_superseded_by t.disk u.new_id ≡ none =
        superseded_by-updated limits u id content args old s u.new_id
        ∙ rw own (last_version s.disk u.new_id sound fresh) in
      let (trail, stop) = last_of-get_supersession_chain t.disk lineage id in
      elim (Follows-two t.disk id u.new_id first second trail) [
        | inl e ↦ absurd (ground (arith, stop, first, ap (λ k. get_superseded_by t.disk k) e))
        | inr e ↦ e
      ]

  -- What the update of a record leaves: the new version is the current one, with the new content and
  -- the type of the old one.
  pub record Replaced (id : String) (t : Engine) : Type 0 where
    pub old : EmberRecord
    pub found : Storage.read id s.disk ≡ ok (some old)
    pub now : EmberRecord
    pub current : get_current t.disk id ≡ ok (some now)
    pub replaced : body now ≡ (u.new_id, content, old.namespace, old.tags, old.record_type)

  updated-Replaced :
      (id : String) (old : EmberRecord)
      → IsSound s.disk
      → Storage.exists u.new_id s.disk ≡ false
      → Storage.read id s.disk ≡ ok (some old)
      → Replaced id (updated limits u id content args old s)
  updated-Replaced id old sound fresh found =
      let t = updated limits u id content args old s in
      let r = sealed_version limits u id content args old in
      let lineage =
        updated-IsLineage limits (update_op u id content args) u id id content args old s refl fresh
          found sound.0 in
      let named : EmberRecord = record old { id = id } in
      let shape = body-overlay t.disk u.new_id r in
      record {
        old = old;
        found = found;
        now = overlay t.disk u.new_id r;
        current =
            get_current_lem t.disk id lineage
            ∙ rw
                (
                  head_of-updated id old sound fresh found,
                  read-updated limits u id content args named s old fresh,
                  live-updated limits u id content args named s old sound fresh,
                )
                refl;
        replaced = shape ∙ body-sealed_version limits u id content args named s old;
      }

  -- An update without precondition that returns replaced the record that it names.
  pub update-Replaced :
      (id : String) (t : Engine) (ids : String × String)
      → IsSound s.disk
      → Storage.exists u.new_id s.disk ≡ false
      → args.expected_hash ≡ none
      → update limits u id content args s ≡ (ok ids, t)
      → (ids ≡ (u.new_id, id)) × Replaced id t
  unfolding resolve_target
  update-Replaced id t ids sound fresh free q = elim (update_cases limits u id content args s) [
    | inr (e, f) ↦ absurd (ground (arith, q, f))
    | inl done ↦
        let same : done.old_id ≡ id = ground (arith, rw free at done.target) in
        let found : Storage.read id s.disk ≡ ok (some done.old) =
          subst (λ x. Storage.read x s.disk ≡ ok (some done.old)) same done.found in
        let left =
          subst (λ x. (ok (u.new_id, x), updated limits u x content args done.old s) ≡ (ok ids, t))
            same (sym done.result ∙ q) in
        (
          ground (arith, left),
          subst (λ x. Replaced id x) (ap (λ x. x.1) left)
              (updated-Replaced id done.old sound fresh found),
        )
  ]
