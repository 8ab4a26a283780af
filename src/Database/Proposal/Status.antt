-- ===== src/Database/Proposal/Status.antt =====
-- The epistemic status of a durable memory (embers/db.py), after it was set.
use embers_diaries.Prelude.{String, false, Option, none, some, ◌≡◌, refl, arith, ap, ◌∙◌, inl, inr}
use embers_diaries.Core.Types.{MemoryStatus}
use embers_diaries.Core.Record.{EmberRecord, Value, Hashing, text, dict}
use embers_diaries.Core.Result.{Result-cases, ok}
use embers_diaries.Storage
use embers_diaries.Storage.{Encoding, StorageLimits}
use embers_diaries.Engine.State.{Engine, UpdateDraw}
use embers_diaries.Engine.Reader.{get_current}
use embers_diaries.Engine.Sound.{IsSound}
use embers_diaries.Database.Fields.{get_field-put_field, put_field}
use embers_diaries.Database.Versions.{update-Revised, Body}
use embers_diaries.Database.Proposal.Operations.{
  memory_value, memory_of, status_in, status_from, changed_status, as_discovery, memory_status,
  set_status,
}

memory_of-memory_value : (s : MemoryStatus) → memory_of (memory_value s) ≡ ok s
unfolding memory_of memory_value
memory_of-memory_value MemoryStatus.verified = refl
memory_of-memory_value MemoryStatus.provisional = refl
memory_of-memory_value MemoryStatus.disputed = refl
memory_of-memory_value MemoryStatus.superseded = refl

status_in-changed_status :
    (content : Value) (status : MemoryStatus)
    → status_in (dict (changed_status content status)) ≡ ok status
unfolding status_in changed_status
status_in-changed_status content status =
    let d = as_discovery content in
    let marked = put_field d "_status" (text (memory_value status)) in
    ap status_from (
      get_field-put_field marked "_promotion_method" "_status" _
      ∙ get_field-put_field d "_status" "_status" (text (memory_value status)))
    ∙ memory_of-memory_value status

module _ ⦃h : Hashing⦄ ⦃c : Encoding⦄ (limits : StorageLimits) where
  -- A change of a memory's status that returns is what is read next: `memory_status` of the memory,
  -- asked under the id by which it was changed, gives the new status and changes nothing. The change
  -- is a new version, which supersedes the version that was current. The disk before was sound, and
  -- the id drawn for the new version is not in use.
  pub set_status-memory_status :
      (u : UpdateDraw) (id changed_by : String) (status : MemoryStatus) (reason : Option String)
      (ids : String × String) (s t : Engine)
      → IsSound s.disk
      → Storage.exists u.new_id s.disk ≡ false
      → set_status limits u id status changed_by reason s ≡ (ok ids, t)
      → (memory_status id t ≡ (ok status, t))
        × (head : EmberRecord) × (get_current s.disk id ≡ ok (some head))
        × (ids ≡ (u.new_id, head.id))
  unfolding set_status memory_status
  set_status-memory_status u id changed_by status reason ids s t sound fresh p =
      elim (Result-cases (get_current s.disk id)) [
        | inr (e, a) ↦ absurd (ground (arith, rw a at p))
        | inl (none, a) ↦ absurd (ground (arith, rw a at p))
        | inl (some head, a) ↦
            let (same, after) =
              update-Revised limits u id (dict (changed_status head.content status)) _ head s t ids
                sound fresh refl a (rw a at p) in
            (
              rw
                  (
                    after.current,
                    ap (λ (y : Body). y.1) after.revised,
                    status_in-changed_status head.content status,
                  )
                  refl,
              head,
              a,
              same,
            )
      ]
