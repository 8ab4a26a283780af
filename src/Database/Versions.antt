-- ===== src/Database/Versions.antt =====
-- Records that embers/db.py keeps as chains of versions: the current version, and a revision of it.
use embers_diaries.Prelude.{
  ℕ, List, nat_eq, String, Bool, true, false, Option, none, some, ◌≡◌, refl, sym, ◌∙◌, ap, arith,
  ◌==◌, inl, inr, Bool-cases, subst,
}
use embers_diaries.Core.Types.{RecordType, type_value}
use embers_diaries.Core.Record.{EmberRecord, Value, Hashing, Time}
use embers_diaries.Core.Result.{Result-cases, ok}
use embers_diaries.Storage
use embers_diaries.Storage.{Disk, Encoding, StorageLimits, stored}
use embers_diaries.Storage.Frame.{run_steps-write_steps}
use embers_diaries.Storage.Reads.{read-stored}
use embers_diaries.Engine.State.{Engine, UpdateDraw}
use embers_diaries.Engine.Writer.{
  update, UpdateArgs, mark_superseded, is_deprecated, new_version, get_access_stats, resolve_target,
}
use embers_diaries.Engine.Reader.{
  get_current, overlay, with_deprecated, with_successor, with_access, successor,
}
use embers_diaries.Engine.Cases.{update_cases, updated, sealed_version}
use embers_diaries.Engine.Lineage.{updated-IsLineage}
use embers_diaries.Engine.Sound.{IsSound, updated-IsFiled}
use embers_diaries.Engine.Cas.{head_of, head_of-after}
use embers_diaries.Engine.ReadBack.{read-run_steps}
use embers_diaries.Engine.Current.{head_record, get_current_lem}
use embers_diaries.Engine.Operations.{update_op}

-- `rec.record_type == …`
abbrev pub is_of_type : RecordType → EmberRecord → Bool
is_of_type type r = type_value r.record_type == type_value type

-- The part of a record that its writer chose, and that no overlay touches.
abbrev pub Body : Type 0
Body = String × Value × String × List String × RecordType

abbrev pub body : EmberRecord → Body
body r = (r.id, r.content, r.namespace, r.tags, r.record_type)

body-with_deprecated : (b : Bool) (r : EmberRecord) → body (with_deprecated b r) ≡ body r
unfolding with_deprecated
body-with_deprecated true r = refl
body-with_deprecated false r = refl

body-with_successor : (o : Option String) (r : EmberRecord) → body (with_successor o r) ≡ body r
unfolding with_successor
body-with_successor none r = refl
body-with_successor (some s) r = refl

body-with_access : (a : ℕ × Option Time) (r : EmberRecord) → body (with_access a r) ≡ body r
unfolding with_access
body-with_access (count, last) r = elim (Bool-cases (nat_eq count 0)) [
  | inl e ↦ rw e refl
  | inr e ↦ rw e refl
]

pub body-overlay : (d : Disk) (id : String) (r : EmberRecord) → body (overlay d id r) ≡ body r
unfolding overlay
body-overlay d id r =
    body-with_access (get_access_stats d id) _
    ∙ body-with_successor (successor d id) _
    ∙ body-with_deprecated (is_deprecated d id) r

module _ ⦃h : Hashing⦄ where
  -- What a current version says of the disk: it is the head of its chain, stored under its own id,
  -- and not deprecated.
  record IsCurrent (d : Disk) (id : String) (r : EmberRecord) : Type 0 where
    file : EmberRecord
    found : Storage.read (head_of d id) d ≡ ok (some file)
    own : r.id ≡ head_of d id
    live : is_deprecated d (head_of d id) ≡ false
    same : body r ≡ body file

  get_current-IsCurrent :
      (d : Disk) (id : String) (r : EmberRecord)
      → IsSound d
      → get_current d id ≡ ok (some r)
      → IsCurrent d id r
  get_current-IsCurrent d id r sound p =
      let q : head_record d id ≡ ok (some r) = sym (get_current_lem d id sound.0) ∙ p in
      elim (Result-cases (Storage.read (head_of d id) d)) [
        | inr (e, f) ↦ absurd (ground (arith, q, f))
        | inl (none, f) ↦ elim (Bool-cases (is_deprecated d (head_of d id))) [
          | inl b ↦ absurd (ground (arith, q, f, b))
          | inr b ↦ absurd (ground (arith, q, f, b))
        ]
        | inl (some file, f) ↦ elim (Bool-cases (is_deprecated d (head_of d id))) [
          | inl b ↦ absurd (ground (arith, q, f, b))
          | inr b ↦
              let eq : overlay d (head_of d id) file ≡ r = ground (arith, q, f, b) in
              let same : body r ≡ body file =
                sym (ap body eq) ∙ body-overlay d (head_of d id) file in
              record {
                file = file;
                found = f;
                own =
                    ap (λ x. x.0) same
                    ∙ sound.1.named (head_of d id) file (read-stored (head_of d id) d f);
                live = b;
                same = same;
              }
        ]
      ]

module _ ⦃h : Hashing⦄ ⦃c : Encoding⦄ (limits : StorageLimits) where
  -- What a revision of a current version leaves: the new version is the current one, with the new
  -- content, and what it inherits from the old one.
  pub record Revised (id : String) (content : Value) (head : EmberRecord) (t : Engine)
      : Type 0 where
    pub sound : IsSound t.disk
    pub now : EmberRecord
    pub current : get_current t.disk id ≡ ok (some now)
    pub revised : body now ≡ (now.id, content, head.namespace, head.tags, head.record_type)

  module _ (u : UpdateDraw) (id : String) (content : Value) (args : UpdateArgs) (head : EmberRecord)
      (s : Engine) where
    -- The new version can be read.
    pub read-updated :
        (old : EmberRecord)
        → Storage.exists u.new_id s.disk ≡ false
        → Storage.read u.new_id (updated limits u head.id content args old s).disk
          ≡ ok (some (sealed_version limits u head.id content args old))
    unfolding new_version mark_superseded Storage.read
    read-updated old fresh =
        read-run_steps limits u.write_draw (new_version u head.id content args old) s.disk fresh

    pub body-sealed_version :
        (old : EmberRecord)
        → body (sealed_version limits u head.id content args old)
          ≡ (u.new_id, content, old.namespace, old.tags, old.record_type)
    unfolding new_version
    body-sealed_version old = refl

    pub live-updated :
        (old : EmberRecord)
        → IsSound s.disk
        → Storage.exists u.new_id s.disk ≡ false
        → is_deprecated (updated limits u head.id content args old s).disk u.new_id ≡ false
    unfolding is_deprecated mark_superseded
    live-updated old sound fresh =
        rw
          (run_steps-write_steps u.write_draw (sealed_version limits u head.id content args old)
            s.disk)
          (ground (arith, fresh, sound.1.marked u.new_id))

    head_record-top :
        (d : Disk) (top : String) (r : EmberRecord)
        → head_of d id ≡ top
        → Storage.read top d ≡ ok (some r)
        → is_deprecated d top ≡ false
        → head_record d id ≡ ok (some (overlay d top r))
    head_record-top d top r e f live = rw (e, f, live) refl

    -- The update of the current version.
    updated-Revised :
        (old : EmberRecord)
        → IsSound s.disk
        → Storage.exists u.new_id s.disk ≡ false
        → IsCurrent s.disk id head
        → Storage.read head.id s.disk ≡ ok (some old)
        → Revised id content head (updated limits u head.id content args old s)
    updated-Revised old sound fresh current found =
        let t = updated limits u head.id content args old s in
        let r = sealed_version limits u head.id content args old in
        let lineage =
          updated-IsLineage limits (update_op u id content args) u id head.id content args old s
            refl fresh found sound.0 in
        let (top, _) =
          head_of-after limits u head.id content args old s id sound.0 fresh found current.own in
        let file_old : current.file ≡ old = ground (arith, current.found, found, current.own) in
        let inherited : body head ≡ body old = current.same ∙ ap body file_old in
        let shape = body-overlay t.disk u.new_id r ∙ body-sealed_version old in
        record {
          sound = (lineage, updated-IsFiled limits u head.id content args old s sound.1);
          now = overlay t.disk u.new_id r;
          current =
              get_current_lem t.disk id lineage
              ∙ head_record-top t.disk u.new_id r top (read-updated old fresh)
                  (live-updated old sound fresh);
          revised = shape ∙ (λ i. (
            ap (λ (x : Body). x.0) (sym shape) i,
            content,
            ap (λ (x : Body). x.2) (sym inherited) i,
            ap (λ (x : Body). x.3) (sym inherited) i,
            ap (λ (x : Body). x.4) (sym inherited) i,
          ));
        }

    target_none :
        (old_id : String)
        → args.expected_hash ≡ none
        → resolve_target args.expected_hash head.id s ≡ (ok old_id, s)
        → old_id ≡ head.id
    unfolding resolve_target
    target_none old_id e p = ground (arith, rw e at p)

    -- The current version is revised by an update without precondition: if that returns, the current
    -- version is the new one.
    pub update-Revised :
        (t : Engine) (ids : String × String)
        → IsSound s.disk
        → Storage.exists u.new_id s.disk ≡ false
        → args.expected_hash ≡ none
        → get_current s.disk id ≡ ok (some head)
        → update limits u head.id content args s ≡ (ok ids, t)
        → (ids ≡ (u.new_id, head.id)) × Revised id content head t
    update-Revised t ids sound fresh free p q =
        elim (update_cases limits u head.id content args s) [
          | inr (e, f) ↦ absurd (ground (arith, q, f))
          | inl done ↦
              let same = target_none done.old_id free done.target in
              let found : Storage.read head.id s.disk ≡ ok (some done.old) =
                subst (λ x. Storage.read x s.disk ≡ ok (some done.old)) same done.found in
              let left =
                subst
                  (λ x.
                    (ok (u.new_id, x), updated limits u x content args done.old s) ≡ (ok ids, t))
                  same (sym done.result ∙ q) in
              (
                ground (arith, left),
                subst (λ x. Revised id content head x) (ap (λ x. x.1) left)
                    (updated-Revised done.old sound fresh
                      (get_current-IsCurrent s.disk id head sound p) found),
              )
        ]
