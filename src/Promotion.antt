-- ===== src/Promotion.antt =====
-- embers/engine/promotion.py: the promotion engine, which decides whether, how and with what status
-- a proposal enters durable memory. The texts of reasons are left out: a reason keeps the values
-- that its text shows.
pub mod Gates
pub mod Submit
mod Tests
use embers_diaries.Prelude.{
  ℕ, String, Bool, true, false, Option, none, some, List, [], ◌∷◌, ◌++◌, ◌==◌, ◌&&◌, ◌||◌, map,
  if◌then◌else◌, not, leb, ltb, length, member, all_of,
}
use embers_diaries.Core.Types.{ProposalStatus, MemoryStatus, PromotionMethod, PromotionMode}
use embers_diaries.Core.Record.{Float, EmberRecord}
use embers_diaries.Core.Proposal.{MemoryProposal, Evidence}
use embers_diaries.Core.Result.{
  Error, key_error, Result, ok, err, Exec, pure, raise, lift, gets, require, ◌>>=◌, ◌>>◌,
}

pub data PromotionOutcome : Type 0 where
  promote hold reject : PromotionOutcome

pub record PromotionPolicy : Type 0 where
  pub min_confidence : Float
  pub verified_confidence : Float
  pub require_evidence : Bool
  pub minimum_evidence_items : ℕ
  pub consensus_threshold : ℕ
  pub trusted_agents : Option (List String)
  pub risk_confidence : Float

-- 0.7, 0.85 and 0.5.
abbrev pub default_policy : PromotionPolicy
default_policy = record {
  min_confidence = 0x3fe6666666666666;
  verified_confidence = 0x3feb333333333333;
  require_evidence = true;
  minimum_evidence_items = 1;
  consensus_threshold = 2;
  trusted_agents = none;
  risk_confidence = 0x3fe0000000000000;
}

is_listed : Option String → List String → Bool
is_listed none agents = false
is_listed (some agent) agents = member agent agents

unfoldable pub is_trusted : PromotionPolicy → Option String → Bool
unfolding is_listed
is_trusted p agent_id = elim p.trusted_agents [
  | none ↦ true
  | some agents ↦ is_listed agent_id agents
]

pub data Reason : Type 0 where
  not_pending : ProposalStatus → Reason
  evidence_items : ℕ → ℕ → Reason
  confidence : Float → Float → Reason
  trusted : Option String → Bool → Reason
  conflicting : Bool → Reason
  corroborating : ℕ → ℕ → Reason
  human_required high_risk : Reason
  low_confidence : Float → Float → Reason

pub record PromotionDecision : Type 0 where
  pub proposal_id : String
  pub outcome : PromotionOutcome
  pub mode : PromotionMode
  pub method : Option PromotionMethod
  pub status : Option MemoryStatus
  pub reasons : List Reason

unfoldable pub will_promote : PromotionDecision → Bool
will_promote d = elim d.outcome [
  | PromotionOutcome.promote ↦ true
  | PromotionOutcome.hold ↦ false
  | PromotionOutcome.reject ↦ false
]

pub record PromotionResult : Type 0 where
  pub decision : PromotionDecision
  pub memory_id : Option String

-- The set of the agents that evidence comes from; evidence without one counts as one agent.
same_agent : Option String → Option String → Bool
same_agent none none = true
same_agent none (some b) = false
same_agent (some a) none = false
same_agent (some a) (some b) = a == b

has_agent : Option String → List (Option String) → Bool
unfolding same_agent
has_agent a [] = false
has_agent a (b ∷ bs) = same_agent b a || has_agent a bs

unfoldable pub distinct_agents : List Evidence → List (Option String)
unfolding has_agent
distinct_agents [] = []
distinct_agents (e ∷ es) =
    let rest = distinct_agents es in if has_agent e.agent_id rest then rest else e.agent_id ∷ rest

-- What the engine calls of EmberDB, on a state of the database: `get_proposal`, `conflicts` and
-- `promote`, with who validates, the status and the method.
pub record Db (S : Type 0) : Type 0 where
  pub get_proposal : S → String → Result (Option MemoryProposal)
  pub conflicts : S → String → Result (List EmberRecord)
  pub promote :
      String → String → Option MemoryStatus → Option PromotionMethod → Exec S (String × String)

-- `if self._db.conflicts(src_id)`, where an exception is passed over.
in_conflict : Result (List EmberRecord) → Bool
in_conflict (err e) = false
in_conflict (ok []) = false
in_conflict (ok (r ∷ rs)) = true

unfoldable pub status_for : PromotionPolicy → Float → MemoryStatus
status_for p c =
    if leb p.verified_confidence c then MemoryStatus.verified else MemoryStatus.provisional

unfoldable pub enough_evidence : PromotionPolicy → MemoryProposal → Bool
enough_evidence p q = not p.require_evidence || leb p.minimum_evidence_items (length q.evidence)

module _ {S : Type 0} (db : Db S) (policy : PromotionPolicy) (s : S) where
  any_conflict : List String → Bool
  unfolding in_conflict
  any_conflict [] = false
  any_conflict (id ∷ ids) = if in_conflict (db.conflicts s id) then true else any_conflict ids

  -- `_has_conflicting_memory`
  unfoldable pub has_conflicting_memory : MemoryProposal → Bool
  unfolding any_conflict
  has_conflicting_memory q = any_conflict q.derivation

  -- `_automatic_gates`
  unfoldable pub automatic_gates : MemoryProposal → List (Bool × Reason)
  automatic_gates q =
      (enough_evidence policy q, evidence_items (length q.evidence) policy.minimum_evidence_items)
      ∷ (leb policy.min_confidence q.confidence, confidence q.confidence policy.min_confidence)
      ∷ (is_trusted policy q.agent_id, trusted q.agent_id (is_trusted policy q.agent_id))
      ∷ (not (has_conflicting_memory q), conflicting (has_conflicting_memory q))
      ∷ []

  abbrev held : MemoryProposal → PromotionMode → List Reason → PromotionDecision
  held q mode reasons = record {
    proposal_id = q.proposal_id;
    outcome = PromotionOutcome.hold;
    mode = mode;
    method = none;
    status = none;
    reasons = reasons;
  }

  abbrev admitted :
      MemoryProposal → PromotionMode → PromotionMethod → List Reason → PromotionDecision
  admitted q mode method reasons = record {
    proposal_id = q.proposal_id;
    outcome = PromotionOutcome.promote;
    mode = mode;
    method = some method;
    status = some (status_for policy q.confidence);
    reasons = reasons;
  }

  unfoldable pub route_automatic : PromotionMode → MemoryProposal → PromotionDecision
  route_automatic mode q =
      let gates = automatic_gates q in
      let reasons = map (λ g. g.1) gates in
      if all_of (λ g. g.0) gates
      then admitted q mode PromotionMethod.automatic reasons
      else held q mode reasons

  unfoldable pub route_consensus : PromotionMode → MemoryProposal → PromotionDecision
  route_consensus mode q =
      let n = length (distinct_agents q.evidence) in
      let reasons = corroborating n policy.consensus_threshold ∷ [] in
      let count = length q.evidence in
      if policy.require_evidence && ltb count policy.minimum_evidence_items
      then held q mode (reasons ++ evidence_items count policy.minimum_evidence_items ∷ [])
      else if has_conflicting_memory q
      then held q mode (reasons ++ conflicting true ∷ [])
      else if leb policy.consensus_threshold n
      then admitted q mode PromotionMethod.consensus reasons
      else held q mode reasons

  unfoldable pub route_human : PromotionMode → MemoryProposal → PromotionDecision
  route_human mode q = held q mode (human_required ∷ [])

  -- The risks that `_route_hybrid` collects.
  unfoldable pub risks : MemoryProposal → List Reason
  risks q =
      (if leb q.confidence policy.risk_confidence
        then low_confidence q.confidence policy.risk_confidence ∷ []
        else [])
      ++ (if has_conflicting_memory q then conflicting true ∷ [] else [])
      ++ (if is_trusted policy q.agent_id then [] else trusted q.agent_id false ∷ [])

  unfoldable pub route_hybrid : PromotionMode → MemoryProposal → PromotionDecision
  route_hybrid mode q = elim (risks q) [
    | r ∷ rs ↦ held q mode (high_risk ∷ r ∷ rs)
    | [] ↦ record (route_automatic mode q) { mode = mode }
  ]

  unfoldable pub route_pending : PromotionMode → MemoryProposal → PromotionDecision
  route_pending PromotionMode.human q = route_human PromotionMode.human q
  route_pending PromotionMode.consensus q = route_consensus PromotionMode.consensus q
  route_pending PromotionMode.hybrid q = route_hybrid PromotionMode.hybrid q
  route_pending PromotionMode.automatic q = route_automatic PromotionMode.automatic q

  -- The dispatch of `route` on the proposal that was found under an id.
  unfoldable pub decide : PromotionMode → String → MemoryProposal → PromotionDecision
  decide mode id q =
      let no = λ (status : ProposalStatus). record (held q mode (not_pending status ∷ [])) {
        proposal_id = id;
      } in
      elim q.status [
        | ProposalStatus.pending ↦ route_pending mode q
        | ProposalStatus.promoted ↦ no ProposalStatus.promoted
        | ProposalStatus.rejected ↦ no ProposalStatus.rejected
      ]

module _ {S : Type 0} (db : Db S) (policy : PromotionPolicy) (mode : PromotionMode) where
  unfoldable pub route : String → Exec S PromotionDecision
  route proposal_id = do
    found ← (λ s. (db.get_proposal s proposal_id, s))
    q ← require found key_error
    gets (λ s. decide db policy s mode proposal_id q)

  abbrev held_result : PromotionDecision → PromotionResult
  held_result d = record { decision = d; memory_id = none }

  unfoldable pub submit : String → String → Exec S PromotionResult
  submit proposal_id validated_by = do
    decision ← route proposal_id
    if not (will_promote decision) then pure (held_result decision) else do
      ids ← db.promote proposal_id validated_by decision.status decision.method
      pure (record { decision = decision; memory_id = some ids.0 })
