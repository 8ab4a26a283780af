-- ===== src/Database/Failure/Payload.antt =====
-- embers/core/failure.py: a failed approach, its payload, and the normal form of an approach by which
-- other agents look it up.
use embers_diaries.Prelude.{
  String, false, Option, none, some, List, [], ◌==◌, ◌≡◌, refl, if◌then◌else◌, not, select, get_or,
  map,
}
use embers_diaries.Core.Record.{EmberRecord, Fields, Value, Time, text, list, dict, end, field}
use embers_diaries.Core.Proposal.{Evidence}
use embers_diaries.Core.Result.{value_error, Result, ok, err}
use embers_diaries.Engine.Reader.{◌>>=◌}
use embers_diaries.Database.Fields.{
  required_text, get_field, put_field, as_dict, text_at, optional_at, of_optional, texts_at,
  of_texts, IsoFormat, time_at, of_time, Shows,
}
use embers_diaries.Database.Evidence.{
  EvidenceHash, seal_evidence, AllShow, evidence_items, evidence_in, evidence_in-evidence_items,
  optional_at-of_optional,
}
use embers_diaries.Database.Session.RoundTrip.{texts_at-of_texts, time_at-shown}

pub record Failure : Type 0 where
  pub failure_id : String
  pub namespace : String
  pub approach : String
  pub failed : String
  pub cause : String
  pub evidence : List Evidence
  pub agent_id : String
  pub session_id : Option String
  pub occurred_at : Time
  pub context : Fields
  pub promoted_to : Option String
  pub tags : List String

-- What is called of Python's `str` and `re` on an approach: `strip()`, `lower()`, `re.sub(r"\s+", " ")`
-- and `strip(" .!?;:")`; and `content_hash` of a namespace and a normal form.
pub record Phrasing : Type 0 where
  pub strip : String → String
  pub lower : String → String
  pub collapse : String → String
  pub trim : String → String
  pub approach_hash : String → String → String

module _ ⦃p : Phrasing⦄ where
  unfoldable pub normalize_approach : String → String
  normalize_approach approach = p.trim (p.collapse (p.lower (p.strip approach)))

  unfoldable pub approach_fingerprint : Failure → String
  unfolding normalize_approach
  approach_fingerprint f = p.approach_hash f.namespace (normalize_approach f.approach)

  -- `__post_init__`
  unfoldable pub with_approach : Failure → Result Failure
  with_approach f = if p.strip f.approach == "" then err value_error else ok f

-- `seal_evidence`
unfoldable pub seal_all : ⦃h : EvidenceHash⦄ → Failure → Failure
unfolding seal_evidence
seal_all f = record f { evidence = map seal_evidence f.evidence }

-- `d.get("evidence", [])`, read in.
unfoldable pub evidence_from : ⦃i : IsoFormat⦄ → Option Value → Result (List Evidence)
evidence_from none = ok []
evidence_from (some (list vs)) = evidence_in vs
evidence_from (some _) = err value_error

-- `d.get("context", {}) or {}`
unfoldable pub context_from : Option Value → Result Fields
unfolding as_dict
context_from none = ok end
context_from (some v) = as_dict v

module _ ⦃i : IsoFormat⦄ ⦃p : Phrasing⦄ where
  -- `to_record_payload`
  unfoldable pub payload : Failure → Fields
  unfolding approach_fingerprint
  payload f = field "failure_id" (text f.failure_id) (
      field "approach" (text f.approach) (
        field "approach_fingerprint" (text (approach_fingerprint f)) (
          field "failed" (text f.failed) (
            field "cause" (text f.cause) (
              field "evidence" (list (evidence_items f.evidence)) (
                field "agent_id" (text f.agent_id) (
                  field "session_id" (of_optional f.session_id) (
                    field "occurred_at" (of_time (some f.occurred_at)) (
                      field "context" (dict f.context)
                        (field "promoted_to" (of_optional f.promoted_to) end))))))))))

  -- `Failure.from_dict`, with the id and the time that it draws for missing keys.
  unfoldable pub from_dict : String → Time → Fields → Result Failure
  unfolding evidence_from context_from with_approach
  from_dict fresh now d = do
    failure_id ← text_at d "failure_id" fresh
    namespace ← text_at d "namespace" "default"
    approach ← required_text d "approach"
    failed ← text_at d "failed" ""
    cause ← text_at d "cause" ""
    evidence ← evidence_from (get_field d "evidence")
    agent_id ← text_at d "agent_id" "system"
    session_id ← optional_at d "session_id"
    occurred_at ← time_at d "occurred_at" (some now)
    context ← context_from (get_field d "context")
    promoted_to ← optional_at d "promoted_to"
    tags ← texts_at d "tags"
    with_approach (record {
      failure_id = failure_id;
      namespace = namespace;
      approach = approach;
      failed = failed;
      cause = cause;
      evidence = evidence;
      agent_id = agent_id;
      session_id = session_id;
      occurred_at = get_or occurred_at now;
      context = context;
      promoted_to = promoted_to;
      tags = tags;
    })

  -- `_failure_from_record`
  unfoldable pub from_record : String → Time → EmberRecord → Result Failure
  from_record fresh now r = do
    data_ ← as_dict r.content
    from_dict fresh now (
        put_field (put_field data_ "namespace" (text r.namespace)) "tags"
          (list (of_texts (select (λ t. not (t == "failure")) r.tags))))

  -- The payload with the keys that `_failure_from_record` adds.
  restored : Failure → Fields
  unfolding payload
  restored f =
      put_field (put_field (payload f) "namespace" (text f.namespace)) "tags"
        (list (of_texts f.tags))

  from_dict-restored :
      (fresh : String) (now : Time) (f : Failure)
      → Shows f.occurred_at
      → AllShow f.evidence
      → (p.strip f.approach == "") ≡ false
      → from_dict fresh now (restored f) ≡ ok f
  unfolding from_dict restored payload get_field put_field text_at required_text
  from_dict-restored fresh now f shown all named =
      let d = restored f in
      rw
        (
          evidence_in-evidence_items f.evidence all,
          optional_at-of_optional d "session_id" f.session_id refl,
          time_at-shown d "occurred_at" (some now) f.occurred_at refl shown,
          optional_at-of_optional d "promoted_to" f.promoted_to refl,
          texts_at-of_texts d "tags" f.tags refl,
          named,
        )
        refl

  -- A failure is read back from a record that holds its payload, has its namespace, and has its tags
  -- beside the tag `failure`; its times must be printed so that they can be read, and its approach is
  -- not blank.
  pub from_record-payload_of :
      (fresh : String) (now : Time) (f : Failure) (r : EmberRecord)
      → Shows f.occurred_at
      → AllShow f.evidence
      → (p.strip f.approach == "") ≡ false
      → r.content ≡ dict (payload f)
      → r.namespace ≡ f.namespace
      → select (λ t. not (t == "failure")) r.tags ≡ f.tags
      → from_record fresh now r ≡ ok f
  unfolding from_record restored as_dict
  from_record-payload_of fresh now f r shown all named content namespace tags =
      rw (content, namespace, tags) (from_dict-restored fresh now f shown all named)
