-- ===== src/Promotion/Tests.antt =====
-- Runs of the promotion engine: the theorems at concrete proposals.
use embers_diaries.Prelude.{ℕ, suc, String, none, some, [], ◌∷◌, ◌≡◌, refl, ◌&&◌}
use embers_diaries.Core.Types.{SourceType, ProposalStatus, PromotionMode}
use embers_diaries.Core.Record.{Value}
use embers_diaries.Core.Proposal.{Evidence, MemoryProposal}
use embers_diaries.Core.Result.{ok}
use embers_diaries.Promotion.{
  PromotionPolicy, default_policy, Db, decide, will_promote, submit, PromotionDecision,
}
use embers_diaries.Promotion.Gates.{admits, is_pending, IsFair, decide-admits, decide-IsFair}

abbrev seen_by : String → Evidence
seen_by agent = record {
  evidence_id = "e";
  source = "log";
  source_type = SourceType.directly_observed;
  reference = "";
  description = "";
  observed_at = 5;
  agent_id = some agent;
  session_id = none;
  content_hash = none;
}

-- A proposal of confidence 0.75, with evidence of two agents.
abbrev proposal : MemoryProposal
proposal = record {
  proposal_id = "p";
  namespace = "default";
  discovery = Value.text "found";
  reason = "two tests";
  evidence = seen_by "ada" ∷ seen_by "ben" ∷ [];
  sources = "log" ∷ [];
  confidence = 0x3fe8000000000000;
  derivation = "m" ∷ [];
  written_by = "system";
  agent_id = some "ada";
  session_id = none;
  created_at = 5;
  status = ProposalStatus.pending;
  tags = [];
}

-- A database that holds that proposal, and counts promotions.
abbrev counting_db : Db ℕ
counting_db = record {
  get_proposal = λ s id. ok (some proposal);
  conflicts = λ s id. ok [];
  promote = λ id who status method s. (ok ("m2", id), suc s);
}

decide-admits_example :
    will_promote (decide counting_db default_policy 0 PromotionMode.hybrid "p" proposal) ≡ (
      is_pending counting_db default_policy 0 proposal.status
      && admits counting_db default_policy 0 PromotionMode.hybrid proposal)
decide-admits_example = decide-admits counting_db default_policy 0 PromotionMode.hybrid "p" proposal

decide-IsFair_example :
    IsFair counting_db default_policy 0 PromotionMode.consensus proposal
      (decide counting_db default_policy 0 PromotionMode.consensus "p" proposal)
decide-IsFair_example =
    decide-IsFair counting_db default_policy 0 PromotionMode.consensus "p" proposal

promoted_once : (submit counting_db default_policy PromotionMode.automatic "p" "engine" 0).1 ≡ 1
unfolding submit embers_diaries.Promotion.route will_promote decide
    embers_diaries.Promotion.route_pending embers_diaries.Promotion.route_automatic
    embers_diaries.Promotion.automatic_gates embers_diaries.Promotion.enough_evidence
    embers_diaries.Promotion.is_trusted embers_diaries.Promotion.has_conflicting_memory
promoted_once = refl

held_for_human : (submit counting_db default_policy PromotionMode.human "p" "engine" 0).1 ≡ 0
unfolding submit embers_diaries.Promotion.route will_promote decide
    embers_diaries.Promotion.route_pending embers_diaries.Promotion.route_human
held_for_human = refl
