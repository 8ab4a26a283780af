-- ===== src/Database/Proposal/Payload.antt =====
-- embers/core/proposal.py: the sources of a proposal, and its payload, with `_proposal_from_record` of
-- embers/db.py.
use embers_diaries.Prelude.{
  String, Option, none, some, List, [], ◌∷◌, ◌++◌, ◌==◌, ◌≡◌, refl, if◌then◌else◌, not, select, map,
  get_or, member, ◌&&◌,
}
use embers_diaries.Core.Types.{ProposalStatus}
use embers_diaries.Core.Record.{
  EmberRecord, Fields, Value, Float, null, float, text, list, dict, end, field,
}
use embers_diaries.Core.Proposal.{Evidence, MemoryProposal}
use embers_diaries.Core.Result.{value_error, Result, ok, err}
use embers_diaries.Engine.Reader.{◌>>=◌}
use embers_diaries.Database.Fields.{get_field, as_dict, text_at, texts_in, of_texts, IsoFormat}
use embers_diaries.Database.Evidence.{
  EvidenceHash, seal_evidence, AllShow, evidence_items, evidence_in, evidence_in-evidence_items,
}

unfoldable pub status_value : ProposalStatus → String
status_value ProposalStatus.pending = "pending"
status_value ProposalStatus.promoted = "promoted"
status_value ProposalStatus.rejected = "rejected"

-- `ProposalStatus(s)`
unfoldable pub status_of : String → Result ProposalStatus
status_of s =
    if s == "pending"
    then ok ProposalStatus.pending
    else if s == "promoted"
    then ok ProposalStatus.promoted
    else if s == "rejected"
    then ok ProposalStatus.rejected
    else err value_error

-- The sources of some evidence, each once.
unfoldable pub derive_sources : List Evidence → List String → List String
derive_sources [] derived = derived
derive_sources (e ∷ es) derived = derive_sources es (
    if not (e.source == "") && not (member e.source derived)
    then derived ++ e.source ∷ []
    else derived)

-- `__post_init__`
unfoldable pub with_sources : MemoryProposal → MemoryProposal
unfolding derive_sources
with_sources p = elim p.sources [
  | [] ↦ record p { sources = derive_sources p.evidence [] }
  | s ∷ ss ↦ p
]

-- `seal_evidence`
abbrev pub seal_all : ⦃h : EvidenceHash⦄ → MemoryProposal → MemoryProposal
seal_all p = record p { evidence = map seal_evidence p.evidence }

-- `data.get(k, default)`, for a float.
unfoldable pub float_from : Float → Option Value → Result Float
float_from default none = ok default
float_from default (some (float x)) = ok x
float_from default (some _) = err value_error

-- `data.get(k, default)`, for a list of texts.
unfoldable pub texts_from : List String → Option Value → Result (List String)
texts_from default none = ok default
texts_from default (some (list vs)) = texts_in vs
texts_from default (some _) = err value_error

module _ ⦃i : IsoFormat⦄ where
  -- `[Evidence.from_dict(e) for e in data.get("evidence", [])]`
  unfoldable pub evidence_from : Option Value → Result (List Evidence)
  evidence_from none = ok []
  evidence_from (some (list vs)) = evidence_in vs
  evidence_from (some _) = err value_error

  -- `to_record_payload`
  unfoldable pub payload : MemoryProposal → Fields
  payload p = field "proposal_id" (text p.proposal_id) (
      field "discovery" p.discovery (
        field "reason" (text p.reason) (
          field "evidence" (list (evidence_items p.evidence)) (
            field "sources" (list (of_texts p.sources)) (
              field "confidence" (float p.confidence) (
                field "derivation" (list (of_texts p.derivation))
                  (field "status" (text (status_value p.status)) end)))))))

  -- `_proposal_from_record`
  unfoldable pub from_record : EmberRecord → Result MemoryProposal
  from_record r = do
    d ← as_dict r.content
    proposal_id ← text_at d "proposal_id" r.id
    reason ← text_at d "reason" (get_or r.creation_reason "")
    evidence ← evidence_from (get_field d "evidence")
    sources ← texts_from [] (get_field d "sources")
    confidence ← float_from r.confidence (get_field d "confidence")
    derivation ← texts_from r.derived_from (get_field d "derivation")
    status_text ← text_at d "status" "pending"
    status ← status_of status_text
    ok (
        with_sources (record {
          proposal_id = proposal_id;
          namespace = r.namespace;
          discovery = get_or (get_field d "discovery") null;
          reason = reason;
          evidence = evidence;
          sources = sources;
          confidence = confidence;
          derivation = derivation;
          written_by = r.written_by;
          agent_id = r.agent_id;
          session_id = r.session_id;
          created_at = r.created_at;
          status = status;
          tags = select (λ t. not (t == "proposal")) r.tags;
        }))

  status_of-status_value : (s : ProposalStatus) → status_of (status_value s) ≡ ok s
  unfolding status_of status_value
  status_of-status_value ProposalStatus.pending = refl
  status_of-status_value ProposalStatus.promoted = refl
  status_of-status_value ProposalStatus.rejected = refl

  texts_in-of_texts : (xs : List String) → texts_in (of_texts xs) ≡ ok xs
  unfolding texts_in of_texts
  texts_in-of_texts [] = refl
  texts_in-of_texts (x ∷ xs) = rw (texts_in-of_texts xs) refl

  -- A proposal that is read from a record with its payload: the author and the time are the record's.
  abbrev pub as_recorded : EmberRecord → MemoryProposal → MemoryProposal
  as_recorded r p = with_sources (record p {
    namespace = r.namespace;
    written_by = r.written_by;
    agent_id = r.agent_id;
    session_id = r.session_id;
    created_at = r.created_at;
    tags = select (λ t. not (t == "proposal")) r.tags;
  })

  -- A proposal is read back from a record that holds its payload, if the times of its evidence are
  -- printed so that they can be read.
  pub from_record-payload_of :
      (p : MemoryProposal) (r : EmberRecord)
      → AllShow p.evidence
      → r.content ≡ dict (payload p)
      → from_record r ≡ ok (as_recorded r p)
  unfolding from_record payload as_dict get_field text_at evidence_from texts_from float_from
  from_record-payload_of p r shown content =
      rw
        (
          content,
          evidence_in-evidence_items p.evidence shown,
          texts_in-of_texts p.sources,
          texts_in-of_texts p.derivation,
          status_of-status_value p.status,
        )
        refl
