-- ===== src/Engine/Deprecation.antt =====
-- `WriteEngine.update` after `EmberDB.deprecate` (embers/engine/writer.py, embers/db.py).
use embers_diaries.Prelude.{String, Option, none, some, ◌≡◌, refl, Bool-cases, inl, inr, ◌==◌}
use embers_diaries.Core.Types.{DeprecationReason}
use embers_diaries.Core.Record.{EmberRecord, Value, Hashing, Time}
use embers_diaries.Core.Result.{Result-cases}
use embers_diaries.Storage
use embers_diaries.Storage.{Disk, Deprecation, Encoding, StorageLimits, check_write_limits}
use embers_diaries.Engine.State.{Engine, UpdateDraw}
use embers_diaries.Engine.Writer.{
  get_superseded_by, get_supersession_chain, chain_walk, chain_step, chain_goes_on, last_of, update,
  supersede, resolve_target, UpdateArgs, hash_of, deprecate,
}
use embers_diaries.Engine.Cases.{sealed_version, seal-new_version, resolve_cases}
use embers_diaries.Engine.Operations.{with_deprecation, deprecate_cases}

module _ ⦃h : Hashing⦄ ⦃c : Encoding⦄ (limits : StorageLimits) (rid : String) (dep : Deprecation)
    (s : Engine) where
  abbrev marked : Engine
  marked = with_deprecation rid dep s

  read-marked : (id : String) → Storage.read id marked.disk ≡ Storage.read id s.disk
  unfolding Storage.read
  read-marked id = refl

  get_supersession_chain-marked :
      (id : String) → get_supersession_chain marked.disk id ≡ get_supersession_chain s.disk id
  unfolding get_supersession_chain chain_walk chain_step chain_goes_on get_superseded_by
  get_supersession_chain-marked id = refl

  resolve_target-marked :
      (expected : Option String) (id : String)
      → resolve_target expected id marked ≡ ((resolve_target expected id s).0, marked)
  unfolding resolve_target
  resolve_target-marked none id = refl
  resolve_target-marked (some hash) id =
      let head_id = last_of (get_supersession_chain s.disk id) id in
      rw (get_supersession_chain-marked id, read-marked head_id)
        (elim (Result-cases (Storage.read head_id s.disk)) [
          | inr (e, p) ↦ rw p refl
          | inl (none, p) ↦ rw p refl
          | inl (some head, p) ↦ elim (Bool-cases (hash_of head == hash)) [
            | inl same ↦ rw (p, same) refl
            | inr other ↦ rw (p, other) refl
          ]
        ])

  supersede-marked :
      (u : UpdateDraw) (old_id : String) (content : Value) (args : UpdateArgs) (old : EmberRecord)
      → (supersede limits u old_id content args old marked).0
        ≡ (supersede limits u old_id content args old s).0
  unfolding supersede Storage.write
  supersede-marked u old_id content args old = elim (Bool-cases old.deprecated) [
    | inl gone ↦ simp gone
    | inr live ↦
        let r = sealed_version limits u old_id content args old in
        elim (Result-cases (check_write_limits limits s.disk.records (c.encoded_size r))) [
          | inl (_, p) ↦ simp (live, seal-new_version limits u old_id content args old, p)
          | inr (e, p) ↦ simp (live, seal-new_version limits u old_id content args old, p)
        ]
  ]

  update-marked :
      (u : UpdateDraw) (id : String) (content : Value) (args : UpdateArgs)
      → (update limits u id content args marked).0 ≡ (update limits u id content args s).0
  unfolding update
  update-marked u id content args = elim (resolve_cases limits args.expected_hash id s) [
    | inr (e, p) ↦ rw (resolve_target-marked args.expected_hash id, p) refl
    | inl (old_id, p) ↦ elim (Result-cases (Storage.read old_id s.disk)) [
      | inr (e, q) ↦ rw (resolve_target-marked args.expected_hash id, p, read-marked old_id, q) refl
      | inl (none, q) ↦
          rw (resolve_target-marked args.expected_hash id, p, read-marked old_id, q) refl
      | inl (some old, q) ↦
          rw (resolve_target-marked args.expected_hash id, p, read-marked old_id, q)
            (supersede-marked u old_id content args old)
    ]
  ]

module _ ⦃h : Hashing⦄ ⦃c : Encoding⦄ (limits : StorageLimits) where
  -- A deprecation does not stop updates: after a call of `deprecate`, on this or another record,
  -- `update` returns or raises exactly what it would have before.
  pub update-deprecate :
      (rid : String) (reason : DeprecationReason) (note author : String) (now : Time)
      (u : UpdateDraw) (id : String) (content : Value) (args : UpdateArgs) (s : Engine)
      → (update limits u id content args (deprecate rid reason note author now s).1).0
        ≡ (update limits u id content args s).0
  update-deprecate rid reason note author now u id content args s =
      elim (deprecate_cases limits rid reason note author now s) [
        | inl e ↦ rw e refl
        | inr (_, _, e) ↦ rw e (update-marked limits rid _ s u id content args)
      ]
