-- ===== src/Engine/Cases.antt =====
-- How the operations of the write engine end: each returns with a state written out, or raises with
-- the state untouched.
use embers_diaries.Prelude.{
  String, false, Option, none, some, ◌≡◌, refl, ◌==◌, ◌⊎◌, inl, inr, Bool-cases,
}
use embers_diaries.Core.Record.{EmberRecord, Value, Hashing, seal, compute_content_hash}
use embers_diaries.Core.Result.{Error, value_error, key_error, ok, err, Result-cases, Exec}
use embers_diaries.Storage
use embers_diaries.Storage.{Disk, Encoding, StorageLimits, WriteDraw, write_steps, run_steps}
use embers_diaries.Storage.Limits.{write-cases}
use embers_diaries.Engine.State.{Engine, UpdateDraw, Operation, on_write}
use embers_diaries.Engine.Writer.{
  write, update, supersede, resolve_target, UpdateArgs, new_version, mark_superseded, stale,
  hash_of, last_of, get_supersession_chain,
}

module _ ⦃h : Hashing⦄ ⦃c : Encoding⦄ (limits : StorageLimits) where
  abbrev pub written : WriteDraw → EmberRecord → Engine → Engine
  written w r s = record {
    disk = run_steps (write_steps w r) s.disk;
    index = on_write r Operation.write s.index;
  }

  -- How `write` returned.
  pub record Wrote (w : WriteDraw) (r : EmberRecord) (s : Engine) : Type 0 where
    pub sealed : EmberRecord
    pub sealing : seal r ≡ ok sealed
    pub absent : Storage.exists sealed.id s.disk ≡ false
    pub result : write limits w r s ≡ (ok sealed.id, written w sealed s)

  abbrev pub Raised : {A : Type 0} → Exec Engine A → Engine → Type 0
  Raised m s = (e : Error) × (m s ≡ (err e, s))

  pub write_cases :
      (w : WriteDraw) (r : EmberRecord) (s : Engine) → Wrote w r s ⊎ Raised (write limits w r) s
  unfolding write
  write_cases w r s = elim (Result-cases (seal r)) [
    | inr (e, p) ↦ inr (e, rw p)
    | inl (sealed, p) ↦ elim (Bool-cases (Storage.exists sealed.id s.disk)) [
      | inl there ↦ inr (value_error, rw (p, there))
      | inr absent ↦ elim (write-cases limits sealed s.disk w) [
        | inl (_, ran) ↦
            inl (record {
              sealed = sealed;
              sealing = p;
              absent = absent;
              result = rw (p, absent, ran);
            })
        | inr (e, _, refused) ↦ inr (e, rw (p, absent, refused))
      ]
    ]
  ]

  -- The record that `update` stores: the new version with its hash attached.
  abbrev pub sealed_version : UpdateDraw → String → Value → UpdateArgs → EmberRecord → EmberRecord
  sealed_version u old_id content args old =
      let r = new_version u old_id content args old in
      record r { content_hash = some (compute_content_hash r) }

  abbrev pub updated : UpdateDraw → String → Value → UpdateArgs → EmberRecord → Engine → Engine
  updated u old_id content args old s =
      let r = sealed_version u old_id content args old in
      record {
        disk =
            mark_superseded old_id u.new_id u.write_draw.now
              (run_steps (write_steps u.write_draw r) s.disk);
        index = on_write r Operation.update s.index;
      }

  -- How `update` returned: what it superseded, and what that was.
  pub record Updated (u : UpdateDraw) (id : String) (content : Value) (args : UpdateArgs)
      (s : Engine) : Type 0 where
    pub old_id : String
    pub old : EmberRecord
    pub target : resolve_target args.expected_hash id s ≡ (ok old_id, s)
    pub found : Storage.read old_id s.disk ≡ ok (some old)
    pub live : old.deprecated ≡ false
    pub result :
        update limits u id content args s
        ≡ (ok (u.new_id, old_id), updated u old_id content args old s)

  pub seal-new_version :
      (u : UpdateDraw) (old_id : String) (content : Value) (args : UpdateArgs) (old : EmberRecord)
      → seal (new_version u old_id content args old) ≡ ok (sealed_version u old_id content args old)
  unfolding seal new_version
  seal-new_version u old_id content args old = refl

  supersede_cases :
      (u : UpdateDraw) (old_id : String) (content : Value) (args : UpdateArgs) (old : EmberRecord)
      (s : Engine)
      → ((old.deprecated ≡ false)
          × (supersede limits u old_id content args old s
              ≡ (ok (u.new_id, old_id), updated u old_id content args old s)))
        ⊎ Raised (supersede limits u old_id content args old) s
  unfolding supersede
  supersede_cases u old_id content args old s = elim (Bool-cases old.deprecated) [
    | inl gone ↦ inr (value_error, simp gone)
    | inr live ↦
        elim (write-cases limits (sealed_version u old_id content args old) s.disk u.write_draw) [
          | inl (_, ran) ↦ inl (live, simp (live, seal-new_version u old_id content args old, ran))
          | inr (e, _, refused) ↦
              inr (e, simp (live, seal-new_version u old_id content args old, refused))
        ]
  ]

  -- How the precondition of `update` ends: it never changes the state.
  pub resolve_cases :
      (expected : Option String) (id : String) (s : Engine)
      → ((old_id : String) × (resolve_target expected id s ≡ (ok old_id, s)))
        ⊎ Raised (resolve_target expected id) s
  unfolding resolve_target
  resolve_cases none id s = inl (id, refl)
  resolve_cases (some hash) id s =
      let head_id = last_of (get_supersession_chain s.disk id) id in
      elim (Result-cases (Storage.read head_id s.disk)) [
        | inr (e, p) ↦ inr (e, rw p)
        | inl (none, p) ↦ inr (key_error, rw p)
        | inl (some head, p) ↦ elim (Bool-cases (hash_of head == hash)) [
          | inl same ↦ inl (head_id, rw (p, same))
          | inr other ↦ inr (stale id hash head_id head, rw (p, other))
        ]
      ]

  pub update_cases :
      (u : UpdateDraw) (id : String) (content : Value) (args : UpdateArgs) (s : Engine)
      → Updated u id content args s ⊎ Raised (update limits u id content args) s
  unfolding update
  update_cases u id content args s = elim (resolve_cases args.expected_hash id s) [
    | inr (e, p) ↦ inr (e, rw p)
    | inl (old_id, p) ↦ elim (Result-cases (Storage.read old_id s.disk)) [
      | inr (e, q) ↦ inr (e, rw (p, q))
      | inl (none, q) ↦ inr (key_error, rw (p, q))
      | inl (some old, q) ↦ elim (supersede_cases u old_id content args old s) [
        | inr (e, t) ↦ inr (e, rw (p, q, t))
        | inl (live, t) ↦ inl (record {
          old_id = old_id;
          old = old;
          target = p;
          found = q;
          live = live;
          result = rw (p, q, t);
        })
      ]
    ]
  ]
