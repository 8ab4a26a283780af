-- ===== src/Engine/Cas.antt =====
-- `expected_hash`: the compare-and-set of `WriteEngine.update` (embers/engine/writer.py).
use embers_diaries.Prelude.{
  String, false, none, some, ◌≡◌, ◌≢◌, refl, sym, ◌∙◌, ap, arith, ◌==◌, eq_iff, eq_refl, inl, inr,
  Bool-cases, Option-cases, subst, if◌then◌else◌,
}
use embers_diaries.Core.Record.{EmberRecord, Value, Hashing}
use embers_diaries.Core.Result.{Result-cases, ok, err}
use embers_diaries.Storage
use embers_diaries.Storage.{
  Disk, Encoding, StorageLimits, stored, WriteDraw, write_steps, run_steps, write_record_file,
}
use embers_diaries.Storage.Reads.{read-stored, read_sealed}
use embers_diaries.Engine.State.{Engine, UpdateDraw}
use embers_diaries.Engine.Writer.{
  get_superseded_by, get_supersession_chain, last_of, update, resolve_target, UpdateArgs, hash_of,
  stale,
}
use embers_diaries.Engine.Cases.{updated, Updated, update_cases}
use embers_diaries.Engine.Operations.{update_op}
use embers_diaries.Engine.Lineage.{IsLineage, superseded_by-updated, updated-IsLineage, new-Link}
use embers_diaries.Engine.Heads.{heads_agree}
use embers_diaries.Engine.Chain.{Follows, here, onward, last_of-get_supersession_chain}

-- `self.get_supersession_chain(record_id)[-1]`
abbrev pub head_of : Disk → String → String
head_of d id = last_of (get_supersession_chain d id) id

module _ ⦃h : Hashing⦄ ⦃c : Encoding⦄ (limits : StorageLimits) where
  -- The precondition that holds.
  resolve_ok :
      (hash id old_id : String) (s : Engine)
      → resolve_target (some hash) id s ≡ (ok old_id, s)
      → (old_id ≡ head_of s.disk id)
        × ((head : EmberRecord) × (Storage.read (head_of s.disk id) s.disk ≡ ok (some head))
            × (hash_of head ≡ hash))
  unfolding resolve_target
  resolve_ok hash id old_id s p = elim (Result-cases (Storage.read (head_of s.disk id) s.disk)) [
    | inr (e, q) ↦ absurd (ground (arith, p, q))
    | inl (none, q) ↦ absurd (ground (arith, p, q))
    | inl (some head, q) ↦ elim (Bool-cases (hash_of head == hash)) [
      | inl same ↦ (ground (arith, p, q, same), (head, q, (eq_iff (hash_of head) hash).0 same))
      | inr other ↦ absurd (ground (arith, p, q, other))
    ]
  ]

  resolve_stale :
      (hash id : String) (head : EmberRecord) (s : Engine)
      → Storage.read (head_of s.disk id) s.disk ≡ ok (some head)
      → hash_of head ≢ hash
      → resolve_target (some hash) id s ≡ (err (stale id hash (head_of s.disk id) head), s)
  unfolding resolve_target
  resolve_stale hash id head s q ne = elim (Bool-cases (hash_of head == hash)) [
    | inl same ↦ absurd (ne ((eq_iff (hash_of head) hash).0 same))
    | inr other ↦ rw (q, other)
  ]

  -- What an update under `expected_hash` had for its target.
  pub Updated-target :
      (u : UpdateDraw) (id : String) (content : Value) (args : UpdateArgs) (hash : String)
      (s : Engine)
      → args.expected_hash ≡ some hash
      → (done : Updated limits u id content args s)
      → (done.old_id ≡ head_of s.disk id)
        × ((head : EmberRecord) × (Storage.read (head_of s.disk id) s.disk ≡ ok (some head))
            × (hash_of head ≡ hash))
  Updated-target u id content args hash s e done =
      resolve_ok hash id done.old_id s (rw e at (done.target))

  -- An update under `expected_hash` that returns has superseded the head of the chain of the record that
  -- was asked for, and the head's hash was the expected one: the ids that it returns are those of the
  -- new version and of that head, and the sidecar of the head now names the new version, while every
  -- other sidecar is as it was.
  pub update-expected_hash :
      (u : UpdateDraw) (id : String) (content : Value) (args : UpdateArgs) (hash : String)
      (s t : Engine) (new_id old_id : String)
      → args.expected_hash ≡ some hash
      → update limits u id content args s ≡ (ok (new_id, old_id), t)
      → (new_id ≡ u.new_id)
        × (old_id ≡ head_of s.disk id)
        × ((head : EmberRecord) × (Storage.read (head_of s.disk id) s.disk ≡ ok (some head))
            × (hash_of head ≡ hash))
        × ((k : String)
            → get_superseded_by t.disk k
              ≡ (if head_of s.disk id == k then some u.new_id else get_superseded_by s.disk k))
  update-expected_hash u id content args hash s t new_id old_id e p =
      elim (update_cases limits u id content args s) [
        | inr (x, q) ↦ absurd (ground (arith, p, q))
        | inl done ↦
            let (at_head, known) = Updated-target u id content args hash s e done in
            let out = sym done.result ∙ p in
            let same : updated limits u done.old_id content args done.old s ≡ t =
              ap (λ x. x.1) out in
            let own : done.old_id ≡ old_id = ground (arith, out) in
            (
              ground (arith, out),
              sym own ∙ at_head,
              known,
              λ k.
                  ap (λ (x : Engine). get_superseded_by x.disk k) (sym same)
                  ∙ superseded_by-updated limits u done.old_id content args done.old s k
                  ∙ ap (λ h'. if h' == k then some u.new_id else get_superseded_by s.disk k)
                      at_head,
            )
      ]

  -- Where the head of the chain has another hash than the expected one, the update raises the
  -- conflict error, which names the head, its version and its hash, and changes nothing.
  pub update-stale :
      (u : UpdateDraw) (id : String) (content : Value) (args : UpdateArgs) (hash : String)
      (s : Engine) (head : EmberRecord)
      → args.expected_hash ≡ some hash
      → Storage.read (head_of s.disk id) s.disk ≡ ok (some head)
      → hash_of head ≢ hash
      → update limits u id content args s ≡ (err (stale id hash (head_of s.disk id) head), s)
  unfolding update
  update-stale u id content args hash s head e q ne = rw (e, resolve_stale hash id head s q ne)

  module _ (u : UpdateDraw) (old_id : String) (content : Value) (args : UpdateArgs)
      (old : EmberRecord) (s : Engine) where
    abbrev pub after : Engine
    after = updated limits u old_id content args old s

    -- Trails to a record without successor stay, since only that record gets one.
    Follows-after :
        {a b : String}
        → get_superseded_by s.disk old_id ≡ none
        → Follows s.disk a b
        → Follows after.disk a b
    Follows-after top here = here
    Follows-after {a} top (onward {b} {c} f p) = onward (Follows-after top f) (
        superseded_by-updated limits u old_id content args old s b
        ∙ ground (arith, eq_iff old_id b, p, top))

    -- The new version has no successor yet: it had no file, and only stored records have one.
    new_version_top :
        IsLineage s.disk
        → Storage.exists u.new_id s.disk ≡ false
        → get_superseded_by s.disk u.new_id ≡ none
    unfolding Storage.exists
    new_version_top l fresh = elim (Option-cases (get_superseded_by s.disk u.new_id)) [
      | inl p ↦ p
      | inr (next, p) ↦ absurd (ground (arith, fresh, (l u.new_id next p).old_stored))
    ]

    -- After an update of a head, the head is the new version, and it can be read.
    pub head_of-after :
        (id : String)
        → IsLineage s.disk
        → Storage.exists u.new_id s.disk ≡ false
        → Storage.read old_id s.disk ≡ ok (some old)
        → old_id ≡ head_of s.disk id
        → (head_of after.disk id ≡ u.new_id)
          × ((r : EmberRecord) × (Storage.read u.new_id after.disk ≡ ok (some r)))
    unfolding Storage.exists
    head_of-after id l fresh found top =
        let (path, end) = last_of-get_supersession_chain s.disk l id in
        let lineage =
          updated-IsLineage limits (update_op u id content args) u id old_id content args old s refl
            fresh found l in
        let (path', end') = last_of-get_supersession_chain after.disk lineage id in
        let none_before : get_superseded_by s.disk old_id ≡ none = rw top end in
        let link = new-Link limits u old_id content args old s fresh found in
        let to_old : Follows s.disk id old_id = rw top path in
        (
          heads_agree path' end'
              (onward (Follows-after none_before to_old) (
                superseded_by-updated limits u old_id content args old s old_id
                ∙ rw (eq_refl old_id)))
              (superseded_by-updated limits u old_id content args old s u.new_id
                ∙ ground (
                  arith,
                  new_version_top l fresh,
                  eq_iff old_id u.new_id,
                  fresh,
                  read-stored old_id s.disk found,
                )),
          (link.new, read_sealed u.new_id after.disk link.new link.new_stored link.sealed),
        )

  -- What the second of two writers meets in the state that the first one left.
  abbrev Refuses : UpdateDraw → String → Value → UpdateArgs → String → String → Engine → Type 0
  Refuses v id content args hash new_id t =
      ((r : EmberRecord) → Storage.read new_id t.disk ≡ ok (some r) → hash_of r ≢ hash)
      → (r : EmberRecord) × (Storage.read new_id t.disk ≡ ok (some r))
        × (update limits v id content args t ≡ (err (stale id hash new_id r), t))

  Refuses-after :
      (v : UpdateDraw) (id : String) (content : Value) (args : UpdateArgs) (hash : String)
      (t : Engine) (new_id : String)
      → args.expected_hash ≡ some hash
      → head_of t.disk id ≡ new_id
      → ((r : EmberRecord) × (Storage.read new_id t.disk ≡ ok (some r)))
      → Refuses v id content args hash new_id t
  Refuses-after v id content args hash t new_id e top (r, found) differs = (
    r,
    found,
    subst (λ x. update limits v id content args t ≡ (err (stale id hash x r), t)) top
        (update-stale v id content args hash t r e (rw top found) (differs r found)),
  )

  -- Two writers update the same record from the same hash. If the first returns, the second is
  -- refused with the conflict error, which names the first one's version as the current one, and
  -- changes nothing. The first one's id is unused, and its version must not have the very hash
  -- that was expected.
  pub update_race :
      (u v : UpdateDraw) (id : String) (content content' : Value) (args args' : UpdateArgs)
      (hash new_id old_id : String) (s t : Engine)
      → IsLineage s.disk
      → Storage.exists u.new_id s.disk ≡ false
      → args.expected_hash ≡ some hash
      → args'.expected_hash ≡ some hash
      → update limits u id content args s ≡ (ok (new_id, old_id), t)
      → ((r : EmberRecord) → Storage.read new_id t.disk ≡ ok (some r) → hash_of r ≢ hash)
      → (r : EmberRecord) × (Storage.read new_id t.disk ≡ ok (some r))
        × (update limits v id content' args' t ≡ (err (stale id hash new_id r), t))
  update_race u v id content content' args args' hash new_id old_id s t l fresh e e' p =
      elim (update_cases limits u id content args s) [
        | inr (x, q) ↦ absurd (ground (arith, p, q))
        | inl done ↦
            let (top, _) = Updated-target u id content args hash s e done in
            let (head, stored_new) =
              head_of-after u done.old_id content args done.old s id l fresh done.found top in
            let same = sym done.result ∙ p in
            subst (λ x. Refuses v id content' args' hash new_id x) (ap (λ x. x.1) same)
              (subst
                (λ x.
                  Refuses v id content' args' hash x
                    (updated limits u done.old_id content args done.old s))
                (ground (arith, same))
                (Refuses-after v id content' args' hash
                  (updated limits u done.old_id content args done.old s) u.new_id e' head
                  stored_new))
      ]
