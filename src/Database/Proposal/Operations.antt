-- ===== src/Database/Proposal/Operations.antt =====
-- `propose`, `get_proposal`, `reject`, `memory_status`, `promotion_method` and `set_status` of
-- embers/db.py. What an operation draws from outside is an argument of it.
use Prim.Native.String.{◌++◌ as append_text}
use embers_diaries.Prelude.{
  Bool, true, String, Option, none, some, [], ◌∷◌, ◌++◌, ◌==◌, if◌then◌else◌, not, get_or,
}
use embers_diaries.Core.Types.{RecordType, ProposalStatus, MemoryStatus, PromotionMethod}
use embers_diaries.Core.Record.{
  EmberRecord, Fields, Value, Time, Hashing, default_record, text, dict, end, field,
}
use embers_diaries.Core.Proposal.{MemoryProposal}
use embers_diaries.Core.Result.{
  value_error, key_error, Result, ok, err, Exec, pure, lift, require, raise_if, ◌>>=◌, ◌>>◌,
}
use embers_diaries.Storage.{Disk, Encoding, StorageLimits, WriteDraw}
use embers_diaries.Engine.State.{Engine, UpdateDraw}
use embers_diaries.Engine.Writer.{update}
use embers_diaries.Engine.Reader.{get, get_current}
use embers_diaries.Database.Fields.{IsoFormat, get_field, put_field}
use embers_diaries.Database.Evidence.{EvidenceHash}
use embers_diaries.Database.Versions.{is_of_type}
use embers_diaries.Database.Session.Operations.{revision}
use embers_diaries.Database.Proposal.Payload.{status_value, seal_all, payload, from_record}
use embers_diaries.Identity.Registry.{db_write}

-- The values of `MemoryStatus` and `PromotionMethod`, and back.
unfoldable pub memory_value : MemoryStatus → String
memory_value MemoryStatus.verified = "verified"
memory_value MemoryStatus.provisional = "provisional"
memory_value MemoryStatus.disputed = "disputed"
memory_value MemoryStatus.superseded = "superseded"

unfoldable pub memory_of : String → Result MemoryStatus
memory_of s =
    if s == "verified"
    then ok MemoryStatus.verified
    else if s == "provisional"
    then ok MemoryStatus.provisional
    else if s == "disputed"
    then ok MemoryStatus.disputed
    else if s == "superseded"
    then ok MemoryStatus.superseded
    else err value_error

unfoldable pub method_value : PromotionMethod → String
method_value PromotionMethod.automatic = "automatic"
method_value PromotionMethod.consensus = "consensus"
method_value PromotionMethod.human = "human"
method_value PromotionMethod.direct = "direct"

-- `dict(discovery)`, or what is no dict under `value`.
unfoldable pub as_discovery : Value → Fields
as_discovery (dict d) = d
as_discovery v = field "value" v end

-- `_with_status`
unfoldable pub with_status : Value → MemoryStatus → PromotionMethod → Fields
unfolding as_discovery memory_value method_value
with_status discovery status method =
    put_field (put_field (as_discovery discovery) "_status" (text (memory_value status)))
      "_promotion_method" (text (method_value method))

-- `MemoryStatus(data.get("_status", …))`, of a record's data.
unfoldable pub status_from : Option Value → Result MemoryStatus
unfolding memory_of
status_from none = ok MemoryStatus.verified
status_from (some (text s)) = memory_of s
status_from (some _) = err value_error

unfoldable pub status_in : Value → Result MemoryStatus
unfolding status_from
status_in (dict d) = status_from (get_field d "_status")
status_in _ = ok MemoryStatus.verified

-- The data of a memory whose status changes.
unfoldable pub changed_status : Value → MemoryStatus → Fields
unfolding as_discovery memory_value
changed_status content status =
    let d = as_discovery content in
    put_field (put_field d "_status" (text (memory_value status))) "_promotion_method"
      (get_or (get_field d "_promotion_method") (text "human"))

module _ ⦃h : Hashing⦄ where
  any_version : Disk → String → Option EmberRecord → Result (Option EmberRecord)
  any_version disk id none = get disk true true id
  any_version disk id (some r) = ok (some r)

  -- `memory_status`
  unfoldable pub memory_status : String → Exec Engine MemoryStatus
  unfolding any_version status_in
  memory_status id = do
    current ← (λ s. (get_current s.disk id, s))
    found ← (λ s. (any_version s.disk id current, s))
    r ← require found key_error
    lift (status_in r.content)

  -- `set_status`
  unfoldable pub set_status :
      ⦃c : Encoding⦄
      → StorageLimits
      → UpdateDraw
      → String
      → MemoryStatus
      → String
      → Option String
      → Exec Engine (String × String)
  unfolding memory_value changed_status
  set_status limits u id status changed_by reason = do
    current ← (λ s. (get_current s.disk id, s))
    r ← require current key_error
    update limits u r.id (dict (changed_status r.content status))
        (revision changed_by (reason_or reason (append_text "status → " (memory_value status))))
    where
      -- `reason or …`
      reason_or : Option String → String → String
      reason_or none default = default
      reason_or (some s) default = if s == "" then default else s

module _ ⦃h : Hashing⦄ ⦃i : IsoFormat⦄ where
  found_proposal : Option EmberRecord → Result (Option MemoryProposal)
  found_proposal none = ok none
  found_proposal (some r) =
      if is_of_type RecordType.proposal r
      then (elim (from_record r) [ ok p ↦ ok (some p) | err e ↦ err e ])
      else ok none

  -- `get_proposal`
  unfoldable pub get_proposal : String → Exec Engine (Option MemoryProposal)
  unfolding any_version found_proposal
  get_proposal id = do
    current ← (λ s. (get_current s.disk id, s))
    found ← (λ s. (any_version s.disk id current, s))
    lift (found_proposal found)

  -- The record of a proposal.
  unfoldable pub proposal_record : Time → MemoryProposal → EmberRecord
  proposal_record recorded p = record (default_record p.proposal_id recorded) {
    namespace = p.namespace;
    record_type = RecordType.proposal;
    content = dict (payload p);
    written_by = p.written_by;
    agent_id = p.agent_id;
    session_id = p.session_id;
    creation_reason = some p.reason;
    derived_from = p.derivation;
    confidence = p.confidence;
    tags = p.tags ++ "proposal" ∷ [];
  }

  module _ ⦃c : Encoding⦄ (limits : StorageLimits) where
    -- `propose`
    unfoldable pub propose :
        ⦃e : EvidenceHash⦄ → Bool → WriteDraw → Time → MemoryProposal → Exec Engine String
    propose enforce w recorded p =
        let sealed = record (seal_all p) { status = ProposalStatus.pending } in
        db_write enforce limits w (proposal_record recorded sealed)

    -- `reject`
    unfoldable pub reject : UpdateDraw → String → String → String → Exec Engine String
    unfolding status_value
    reject u id reason rejected_by = do
      found ← get_proposal id
      p ← require found key_error
      raise_if (not (status_value p.status == "pending")) value_error
      ids ←
          update limits u id
            (dict (
              put_field (put_field (payload p) "status" (text "rejected")) "rejection_reason"
                (text reason)))
            (revision rejected_by (append_text "proposal rejected: " reason))
      pure ids.0
