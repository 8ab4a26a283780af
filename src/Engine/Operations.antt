-- ===== src/Engine/Operations.antt =====
-- The write operations as data, and the effect of each on the engine's state.
use embers_diaries.Prelude.{
  ◌+◌, String, false, none, some, List, [], ◌∷◌, ◌++◌, ◌≡◌, arith, true, ◌⊎◌, refl, ap, inl, inr,
  Bool-cases,
}
use embers_diaries.Dict
use embers_diaries.Core.Types.{DeprecationReason}
use embers_diaries.Core.Record.{EmberRecord, Annotation, Value, Time, Hashing}
use embers_diaries.Core.Result.{ok, Result-cases}
use embers_diaries.Storage
use embers_diaries.Storage.{
  Disk, Access, Deprecation, Encoding, StorageLimits, WriteDraw, write_steps, run_steps,
}
use embers_diaries.Storage.Reads.{read-stored}
use embers_diaries.Index.Master
use embers_diaries.Engine.State.{Engine, UpdateDraw, on_write}
use embers_diaries.Engine.Writer.{
  write, update, UpdateArgs, deprecate, is_deprecated, annotate, get_annotations, record_access,
  access_count_of,
}
use embers_diaries.Engine.Cases.{written, write_cases, updated, update_cases}

-- A call of the engine, with what it draws from outside.
pub data Op : Type 0 where
  write_op : WriteDraw → EmberRecord → Op
  update_op : UpdateDraw → String → Value → UpdateArgs → Op
  deprecate_op : String → DeprecationReason → String → String → Time → Op
  annotate_op : String → Annotation → Op
  access_op : Time → String → Op

abbrev pub with_deprecation : String → Deprecation → Engine → Engine
with_deprecation id dep s = record {
  disk = record s.disk { deprecations = Dict.put s.disk.deprecations id dep };
  index = Master.mark_deprecated id s.index;
}

abbrev pub with_annotation : String → Annotation → Engine → Engine
with_annotation id a s = record s {
  disk = record s.disk {
    annotations = Dict.put s.disk.annotations id (get_annotations s.disk id ++ a ∷ []);
  };
}

abbrev pub with_access : String → Access → Engine → Engine
with_access id a s = record s { disk = record s.disk { access = Dict.put s.disk.access id a } }

module _ ⦃h : Hashing⦄ ⦃c : Encoding⦄ (limits : StorageLimits) where
  -- The state after a call, whether it returned or raised.
  unfoldable pub apply_op : Op → Engine → Engine
  apply_op (write_op w r) s = (write limits w r s).1
  apply_op (update_op u id content args) s = (update limits u id content args s).1
  apply_op (deprecate_op id reason note author now) s = (deprecate id reason note author now s).1
  apply_op (annotate_op id a) s = (annotate id a s).1
  apply_op (access_op now id) s = (record_access now id s).1

  unfoldable pub run_ops : List Op → Engine → Engine
  run_ops [] s = s
  run_ops (op ∷ ops) s = run_ops ops (apply_op op s)

  -- What a call can have done.
  pub data Effect (op : Op) (s : Engine) (t : Engine) : Type 0 where
    nothing : t ≡ s → Effect op s t
    wrote :
        (w : WriteDraw) (r : EmberRecord)
        → Storage.exists r.id s.disk ≡ false
        → t ≡ written limits w r s
        → Effect op s t
    updated_to :
        (u : UpdateDraw) (id old_id : String) (content : Value) (args : UpdateArgs)
        (old : EmberRecord)
        → op ≡ update_op u id content args
        → Storage.read old_id s.disk ≡ ok (some old)
        → t ≡ updated limits u old_id content args old s
        → Effect op s t
    deprecated :
        (id : String) (dep : Deprecation)
        → Storage.exists id s.disk ≡ true
        → is_deprecated s.disk id ≡ false
        → t ≡ with_deprecation id dep s
        → Effect op s t
    annotated : (id : String) (a : Annotation) → t ≡ with_annotation id a s → Effect op s t
    accessed : (id : String) (a : Access) → t ≡ with_access id a s → Effect op s t

  write-Effect :
      (w : WriteDraw) (r : EmberRecord) (s : Engine)
      → Effect (write_op w r) s (write limits w r s).1
  write-Effect w r s = elim (write_cases limits w r s) [
    | inl done ↦ wrote w done.sealed done.absent (ap (λ x. x.1) done.result)
    | inr (e, p) ↦ nothing (ap (λ x. x.1) p)
  ]

  update-Effect :
      (u : UpdateDraw) (id : String) (content : Value) (args : UpdateArgs) (s : Engine)
      → Effect (update_op u id content args) s (update limits u id content args s).1
  update-Effect u id content args s = elim (update_cases limits u id content args s) [
    | inl done ↦
        updated_to u id done.old_id content args done.old refl done.found
          (ap (λ x. x.1) done.result)
    | inr (e, p) ↦ nothing (ap (λ x. x.1) p)
  ]

  abbrev pub deprecation : String → DeprecationReason → String → String → Time → Deprecation
  deprecation id reason note author now = record {
    record_id = id;
    reason = reason;
    note = note;
    written_by = author;
    timestamp = now;
  }

  -- What `deprecate` leaves.
  pub deprecate_cases :
      (id : String) (reason : DeprecationReason) (note author : String) (now : Time) (s : Engine)
      → ((deprecate id reason note author now s).1 ≡ s)
        ⊎ ((Storage.exists id s.disk ≡ true)
            × (is_deprecated s.disk id ≡ false)
            × ((deprecate id reason note author now s).1
                ≡ with_deprecation id (deprecation id reason note author now) s))
  unfolding deprecate on_write Storage.exists
  deprecate_cases id reason note author now s = elim (Result-cases (Storage.read id s.disk)) [
    | inr (e, p) ↦ inl (rw p)
    | inl (none, p) ↦ inl (rw p)
    | inl (some r, p) ↦ elim (Bool-cases (is_deprecated s.disk id)) [
      | inl old ↦ inl (rw (p, old))
      | inr new ↦ inr (ground (arith, read-stored id s.disk p), new, rw (p, new))
    ]
  ]

  deprecate-Effect :
      (id : String) (reason : DeprecationReason) (note author : String) (now : Time) (s : Engine)
      → Effect (deprecate_op id reason note author now) s (deprecate id reason note author now s).1
  deprecate-Effect id reason note author now s =
      elim (deprecate_cases id reason note author now s) [
        | inl e ↦ nothing e
        | inr (there, new, e) ↦ deprecated id (deprecation id reason note author now) there new e
      ]

  annotate-Effect :
      (id : String) (a : Annotation) (s : Engine) → Effect (annotate_op id a) s (annotate id a s).1
  unfolding annotate on_write
  annotate-Effect id a s = elim (Bool-cases (Storage.exists id s.disk)) [
    | inr absent ↦ nothing (rw absent)
    | inl there ↦
        let target = record a { target_record_id = id } in
        annotated id target
          (elim (Result-cases (Storage.read id (with_annotation id target s).disk)) [
            | inr (e, p) ↦ rw (there, p)
            | inl (none, p) ↦ rw (there, p)
            | inl (some r, p) ↦ rw (there, p)
          ])
  ]

  -- Every call has one of these effects.
  pub apply_op-Effect : (op : Op) (s : Engine) → Effect op s (apply_op op s)
  unfolding apply_op record_access
  apply_op-Effect (write_op w r) s = write-Effect w r s
  apply_op-Effect (update_op u id content args) s = update-Effect u id content args s
  apply_op-Effect (deprecate_op id reason note author now) s =
      deprecate-Effect id reason note author now s
  apply_op-Effect (annotate_op id a) s = annotate-Effect id a s
  apply_op-Effect (access_op now id) s =
      accessed id (record { access_count = access_count_of s.disk id + 1; last_accessed = now })
        refl

  -- uuid4 draws an id that no record has.
  abbrev pub IsFreshOp : Op → Engine → Type 0
  IsFreshOp (update_op u id content args) s = Storage.exists u.new_id s.disk ≡ false
  IsFreshOp _ s = Unit

  -- Every id drawn in a run is unused when it is drawn.
  abbrev pub AllFresh : List Op → Engine → Type 0
  AllFresh [] s = Unit
  AllFresh (op ∷ ops) s = IsFreshOp op s × AllFresh ops (apply_op op s)

  -- What every effect keeps, every run of calls keeps.
  pub run_induction :
      (P : Engine → Type 0)
      → ((op : Op) (s t : Engine) → Effect op s t → P s → P t)
      → (ops : List Op) (s : Engine) → P s
      → P (run_ops ops s)
  unfolding run_ops
  run_induction P keep [] s h = h
  run_induction P keep (op ∷ ops) s h =
      run_induction P keep ops (apply_op op s) (keep op s (apply_op op s) (apply_op-Effect op s) h)

  pub run_fresh_induction :
      (P : Engine → Type 0)
      → ((op : Op) (s t : Engine) → IsFreshOp op s → Effect op s t → P s → P t)
      → (ops : List Op) (s : Engine) → AllFresh ops s
      → P s
      → P (run_ops ops s)
  unfolding run_ops
  run_fresh_induction P keep [] s f h = h
  run_fresh_induction P keep (op ∷ ops) s f h =
      run_fresh_induction P keep ops (apply_op op s) f.1
        (keep op s (apply_op op s) f.0 (apply_op-Effect op s) h)
