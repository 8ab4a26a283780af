-- ===== src/Database/Evidence.antt =====
-- embers/core/evidence.py: a piece of evidence, sealed, and as the dict that payloads hold. The
-- canonical bytes and their SHA-256 are a parameter.
use embers_diaries.Prelude.{
  map, String, Option, none, some, List, [], ◌∷◌, ◌==◌, ◌≡◌, refl, if◌then◌else◌,
}
use embers_diaries.Core.Types.{SourceType}
use embers_diaries.Core.Record.{Fields, Items, text, dict, nil, cons, end, field}
use embers_diaries.Core.Proposal.{Evidence}
use embers_diaries.Core.Result.{value_error, Result, ok, err}
use embers_diaries.Engine.Reader.{◌>>=◌}
use embers_diaries.Database.Fields.{
  required_text, get_field, text_at, optional_at, of_optional, IsoFormat, of_time, Shows,
}

unfoldable pub source_value : SourceType → String
source_value SourceType.directly_observed = "directly_observed"
source_value SourceType.inferred = "inferred"
source_value SourceType.reported = "reported"
source_value SourceType.experimentally_verified = "experimentally_verified"
source_value SourceType.imported = "imported"
source_value SourceType.manually_entered = "manually_entered"

unfoldable pub source_of : String → Result SourceType
source_of s =
    if s == "directly_observed"
    then ok SourceType.directly_observed
    else if s == "inferred"
    then ok SourceType.inferred
    else if s == "reported"
    then ok SourceType.reported
    else if s == "experimentally_verified"
    then ok SourceType.experimentally_verified
    else if s == "imported"
    then ok SourceType.imported
    else if s == "manually_entered"
    then ok SourceType.manually_entered
    else err value_error

-- `compute_content_hash`, which does not read the hash that is there.
pub record EvidenceHash : Type 0 where
  pub evidence_hash : Evidence → String

-- `if e.content_hash is None: e.seal()`
unfoldable pub seal_evidence : ⦃h : EvidenceHash⦄ → Evidence → Evidence
seal_evidence ⦃h⦄ e = elim e.content_hash [
  | none ↦ record e { content_hash = some (h.evidence_hash e) }
  | some hash ↦ e
]

module _ ⦃i : IsoFormat⦄ where
  -- `to_dict`
  unfoldable pub evidence_dict : Evidence → Fields
  evidence_dict e = field "evidence_id" (text e.evidence_id) (
      field "source" (text e.source) (
        field "source_type" (text (source_value e.source_type)) (
          field "reference" (text e.reference) (
            field "description" (text e.description) (
              field "observed_at" (of_time (some e.observed_at)) (
                field "agent_id" (of_optional e.agent_id) (
                  field "session_id" (of_optional e.session_id)
                    (field "content_hash" (of_optional e.content_hash) end))))))))

  unfoldable pub evidence_items : List Evidence → Items
  evidence_items [] = nil
  evidence_items (e ∷ es) = cons (dict (evidence_dict e)) (evidence_items es)

  -- `from_dict`; its two required keys raise where they are missing.
  unfoldable pub evidence_of : Fields → Result Evidence
  evidence_of d = do
    evidence_id ← required_text d "evidence_id"
    source ← text_at d "source" ""
    source_text ← text_at d "source_type" "directly_observed"
    source_type ← source_of source_text
    reference ← text_at d "reference" ""
    description ← text_at d "description" ""
    observed_text ← required_text d "observed_at"
    observed_at ← i.fromisoformat observed_text
    agent_id ← optional_at d "agent_id"
    session_id ← optional_at d "session_id"
    content_hash ← optional_at d "content_hash"
    ok (record {
      evidence_id = evidence_id;
      source = source;
      source_type = source_type;
      reference = reference;
      description = description;
      observed_at = observed_at;
      agent_id = agent_id;
      session_id = session_id;
      content_hash = content_hash;
    })

  -- `[Evidence.from_dict(e) for e in items]`
  unfoldable pub evidence_in : Items → Result (List Evidence)
  evidence_in nil = ok []
  evidence_in (cons (dict d) vs) = do e ← evidence_of d; es ← evidence_in vs; ok (e ∷ es)
  evidence_in (cons _ vs) = err value_error

  -- Evidence whose time is printed so that it can be read is read back.
  abbrev pub AllShow : List Evidence → Type 0
  AllShow [] = Unit
  AllShow (e ∷ es) = Shows e.observed_at × AllShow es

  source_of-source_value : (s : SourceType) → source_of (source_value s) ≡ ok s
  unfolding source_of source_value
  source_of-source_value SourceType.directly_observed = refl
  source_of-source_value SourceType.inferred = refl
  source_of-source_value SourceType.reported = refl
  source_of-source_value SourceType.experimentally_verified = refl
  source_of-source_value SourceType.imported = refl
  source_of-source_value SourceType.manually_entered = refl

  pub optional_at-of_optional :
      (d : Fields) (k : String) (o : Option String)
      → get_field d k ≡ some (of_optional o)
      → optional_at d k ≡ ok o
  unfolding optional_at
  optional_at-of_optional d k none p = rw p refl
  optional_at-of_optional d k (some s) p = rw p refl

  evidence_of-evidence_dict :
      (e : Evidence) → Shows e.observed_at → evidence_of (evidence_dict e) ≡ ok e
  unfolding evidence_of evidence_dict required_text text_at get_field
  evidence_of-evidence_dict e shown =
      let d = evidence_dict e in
      rw
        (
          source_of-source_value e.source_type,
          shown.0,
          optional_at-of_optional d "agent_id" e.agent_id refl,
          optional_at-of_optional d "session_id" e.session_id refl,
          optional_at-of_optional d "content_hash" e.content_hash refl,
        )
        refl

  pub evidence_in-evidence_items :
      (es : List Evidence) → AllShow es → evidence_in (evidence_items es) ≡ ok es
  unfolding evidence_in evidence_items
  evidence_in-evidence_items [] shown = refl
  evidence_in-evidence_items (e ∷ es) shown =
      rw (evidence_of-evidence_dict e shown.0, evidence_in-evidence_items es shown.1) refl

-- Sealing leaves the times alone.
pub AllShow-map :
    ⦃i : IsoFormat⦄ ⦃e : EvidenceHash⦄ (es : List Evidence)
    → AllShow es
    → AllShow (map seal_evidence es)
unfolding seal_evidence
AllShow-map [] shown = tt
AllShow-map (v ∷ vs) shown = (at_time v v.content_hash refl shown.0, AllShow-map vs shown.1)
  where
    at_time :
        (w : Evidence) (o : Option String)
        → w.content_hash ≡ o
        → Shows w.observed_at
        → Shows (seal_evidence w).observed_at
    at_time w none q h = rw q h
    at_time w (some hash) q h = rw q h
