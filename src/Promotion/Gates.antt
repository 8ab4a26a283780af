-- ===== src/Promotion/Gates.antt =====
-- `PromotionEngine.route` (embers/engine/promotion.py): the decision of each mode.
use embers_diaries.Prelude.{
  String, Bool, true, false, none, some, List, [], ◌∷◌, ◌≡◌, refl, arith, ◌&&◌, not, leb, ltb,
  all_of, if◌then◌else◌, ◌∙◌, sym, length, ap, ◌⊎◌, inl, inr,
}
use embers_diaries.Core.Types.{ProposalStatus, MemoryStatus, PromotionMethod, PromotionMode}
use embers_diaries.Core.Proposal.{MemoryProposal}
use embers_diaries.Promotion.{
  PromotionPolicy, PromotionDecision, PromotionOutcome, Reason, Db, is_trusted, distinct_agents,
  enough_evidence, status_for, has_conflicting_memory, automatic_gates, route_automatic,
  route_consensus, route_human, risks, route_hybrid, route_pending, decide, will_promote,
}

module _ {S : Type 0} (db : Db S) (policy : PromotionPolicy) (s : S) where
  -- The criteria of the automatic mode, and of each mode, apart from the order in which the code
  -- tests them.
  abbrev pub meets_gates : MemoryProposal → Bool
  meets_gates q =
      enough_evidence policy q
      && (leb policy.min_confidence q.confidence
          && (is_trusted policy q.agent_id && not (has_conflicting_memory db policy s q)))

  abbrev pub admits : PromotionMode → MemoryProposal → Bool
  admits PromotionMode.automatic q = meets_gates q
  admits PromotionMode.consensus q =
      enough_evidence policy q
      && (not (has_conflicting_memory db policy s q)
          && leb policy.consensus_threshold (length (distinct_agents q.evidence)))
  admits PromotionMode.human q = false
  admits PromotionMode.hybrid q = meets_gates q && ltb policy.risk_confidence q.confidence

  will_promote-if :
      (b : Bool) (d e : PromotionDecision)
      → will_promote (if b then d else e) ≡ (if b then will_promote d else will_promote e)
  will_promote-if true d e = refl
  will_promote-if false d e = refl

  will_automatic :
      (mode : PromotionMode) (q : MemoryProposal)
      → will_promote (route_automatic db policy s mode q) ≡ meets_gates q
  unfolding will_promote route_automatic automatic_gates
  will_automatic mode q =
      will_promote-if (all_of (λ g. g.0) (automatic_gates db policy s q)) _ _
      ∙ and_gates (enough_evidence policy q) (leb policy.min_confidence q.confidence)
          (is_trusted policy q.agent_id) (has_conflicting_memory db policy s q)
    where
      and_gates :
          (a b c d : Bool)
          → (if a && (b && (c && (not d && true))) then true else false)
            ≡ (a && (b && (c && not d)))
      and_gates a b c d = ground arith

  will_consensus :
      (mode : PromotionMode) (q : MemoryProposal)
      → will_promote (route_consensus db policy s mode q) ≡ admits PromotionMode.consensus q
  unfolding will_promote route_consensus enough_evidence
  will_consensus mode q = simp will_promote-if (ground arith)

  -- No risk is found: the criteria that the gates do not have.
  risks-nil :
      (q : MemoryProposal)
      → risks db policy s q ≡ []
      → meets_gates q ≡ admits PromotionMode.hybrid q
  unfolding risks
  risks-nil q e = ground (arith, e)

  risks-cons :
      (q : MemoryProposal) (r : Reason) (rs : List Reason)
      → risks db policy s q ≡ r ∷ rs
      → false ≡ admits PromotionMode.hybrid q
  unfolding risks
  risks-cons q r rs e = ground (arith, e)

  will_hybrid :
      (mode : PromotionMode) (q : MemoryProposal)
      → will_promote (route_hybrid db policy s mode q) ≡ admits PromotionMode.hybrid q
  unfolding route_hybrid will_promote
  will_hybrid mode q = by_risks (risks db policy s q) refl
    where
      by_risks :
          (rs : List Reason)
          → risks db policy s q ≡ rs
          → will_promote (route_hybrid db policy s mode q) ≡ admits PromotionMode.hybrid q
      by_risks [] e = rw (will_promote, e) (will_automatic mode q ∙ risks-nil q e)
      by_risks (r ∷ rs) e = rw (will_promote, e) (risks-cons q r rs e)

  abbrev pub is_pending : ProposalStatus → Bool
  is_pending ProposalStatus.pending = true
  is_pending ProposalStatus.promoted = false
  is_pending ProposalStatus.rejected = false

  decide-status :
      (mode : PromotionMode) (id : String) (q : MemoryProposal) (st : ProposalStatus)
      → q.status ≡ st
      → will_promote (decide db policy s mode id q)
        ≡ (is_pending st && will_promote (route_pending db policy s mode q))
  unfolding decide will_promote
  decide-status mode id q ProposalStatus.pending e = simp (e, decide)
  decide-status mode id q ProposalStatus.promoted e = simp (e, decide)
  decide-status mode id q ProposalStatus.rejected e = simp (e, decide)

  will_pending :
      (mode : PromotionMode) (q : MemoryProposal)
      → will_promote (route_pending db policy s mode q) ≡ admits mode q
  unfolding route_pending route_human will_promote
  will_pending PromotionMode.automatic q = will_automatic PromotionMode.automatic q
  will_pending PromotionMode.consensus q = will_consensus PromotionMode.consensus q
  will_pending PromotionMode.human q = refl
  will_pending PromotionMode.hybrid q = will_hybrid PromotionMode.hybrid q

  -- A proposal is promoted exactly where it is pending and meets the criteria of the mode: never in
  -- the human one; under consensus whatever its confidence and whoever proposed it; and in the
  -- hybrid one where the automatic one would and the confidence is above the risk threshold.
  pub decide-admits :
      (mode : PromotionMode) (id : String) (q : MemoryProposal)
      → will_promote (decide db policy s mode id q) ≡ (is_pending q.status && admits mode q)
  decide-admits mode id q =
      decide-status mode id q q.status refl
      ∙ ap (λ b. is_pending q.status && b) (will_pending mode q)

  abbrev pub method_of : PromotionMode → PromotionMethod
  method_of PromotionMode.consensus = PromotionMethod.consensus
  method_of PromotionMode.automatic = PromotionMethod.automatic
  method_of PromotionMode.human = PromotionMethod.automatic
  method_of PromotionMode.hybrid = PromotionMethod.automatic

  -- A decision to hold names no method and no status; one to promote names the method of the mode,
  -- and verified or provisional by the confidence. There is no other.
  abbrev pub IsFair : PromotionMode → MemoryProposal → PromotionDecision → Type 0
  IsFair mode q d =
      ((d.outcome ≡ PromotionOutcome.hold) × (d.method ≡ none) × (d.status ≡ none))
      ⊎ ((d.outcome ≡ PromotionOutcome.promote)
          × (d.method ≡ some (method_of mode))
          × (d.status
              ≡ some (
                  if leb policy.verified_confidence q.confidence
                  then MemoryStatus.verified
                  else MemoryStatus.provisional)))

  IsFair-if :
      (mode : PromotionMode) (q : MemoryProposal) (b : Bool) (d e : PromotionDecision)
      → IsFair mode q d
      → IsFair mode q e
      → IsFair mode q (if b then d else e)
  IsFair-if mode q true d e x y = x
  IsFair-if mode q false d e x y = y

  route_automatic-IsFair :
      (mode shown : PromotionMode) (q : MemoryProposal)
      → method_of mode ≡ PromotionMethod.automatic
      → IsFair mode q (route_automatic db policy s shown q)
  unfolding route_automatic automatic_gates status_for
  route_automatic-IsFair mode shown q e =
      IsFair-if mode q (all_of (λ g. g.0) (automatic_gates db policy s q)) _ _
        (inr (refl, ap some (sym e), refl)) (inl (refl, refl, refl))

  route_consensus-IsFair :
      (q : MemoryProposal)
      → IsFair PromotionMode.consensus q (route_consensus db policy s PromotionMode.consensus q)
  unfolding route_consensus status_for
  route_consensus-IsFair q =
      let fair = IsFair-if PromotionMode.consensus q in
      fair (policy.require_evidence && ltb (length q.evidence) policy.minimum_evidence_items) _ _
        (inl (refl, refl, refl))
        (fair (has_conflicting_memory db policy s q) _ _ (inl (refl, refl, refl)) (
          fair (leb policy.consensus_threshold (length (distinct_agents q.evidence))) _ _
            (inr (refl, refl, refl)) (inl (refl, refl, refl))))

  route_hybrid-IsFair :
      (q : MemoryProposal)
      → IsFair PromotionMode.hybrid q (route_hybrid db policy s PromotionMode.hybrid q)
  unfolding route_hybrid
  route_hybrid-IsFair q = by_risks (risks db policy s q) refl
    where
      by_risks :
          (rs : List Reason)
          → risks db policy s q ≡ rs
          → IsFair PromotionMode.hybrid q (route_hybrid db policy s PromotionMode.hybrid q)
      by_risks [] e =
          rw (e, route_hybrid)
            (route_automatic-IsFair PromotionMode.hybrid PromotionMode.hybrid q refl)
      by_risks (r ∷ rs) e = rw (e, route_hybrid) (inl (refl, refl, refl))

  route_pending-IsFair :
      (mode : PromotionMode) (q : MemoryProposal) → IsFair mode q (route_pending db policy s mode q)
  unfolding route_pending route_human
  route_pending-IsFair PromotionMode.automatic q =
      route_automatic-IsFair PromotionMode.automatic PromotionMode.automatic q refl
  route_pending-IsFair PromotionMode.consensus q = route_consensus-IsFair q
  route_pending-IsFair PromotionMode.human q = inl (refl, refl, refl)
  route_pending-IsFair PromotionMode.hybrid q = route_hybrid-IsFair q

  decide-status-IsFair :
      (mode : PromotionMode) (id : String) (q : MemoryProposal) (st : ProposalStatus)
      → q.status ≡ st
      → IsFair mode q (decide db policy s mode id q)
  unfolding decide
  decide-status-IsFair mode id q ProposalStatus.pending e =
      simp (e, decide) (route_pending-IsFair mode q)
  decide-status-IsFair mode id q ProposalStatus.promoted e =
      simp (e, decide) (inl (refl, refl, refl))
  decide-status-IsFair mode id q ProposalStatus.rejected e =
      simp (e, decide) (inl (refl, refl, refl))

  -- A decision never rejects. One to hold names no method and no status; one to promote names the
  -- method of the mode (the automatic one unless the mode is consensus), and as status verified where
  -- the confidence reaches the threshold for it and provisional below.
  pub decide-IsFair :
      (mode : PromotionMode) (id : String) (q : MemoryProposal)
      → IsFair mode q (decide db policy s mode id q)
  decide-IsFair mode id q = decide-status-IsFair mode id q q.status refl
