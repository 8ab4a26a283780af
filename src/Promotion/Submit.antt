-- ===== src/Promotion/Submit.antt =====
-- `PromotionEngine.submit` (embers/engine/promotion.py), on each branch of the decision.
use embers_diaries.Prelude.{
  String, Option, none, some, ◌≡◌, refl, ◌&&◌, if◌then◌else◌, Bool-cases, inl, inr, sym, ◌∙◌,
}
use embers_diaries.Core.Types.{PromotionMode}
use embers_diaries.Core.Proposal.{MemoryProposal}
use embers_diaries.Core.Result.{key_error, Result, Result-cases, ok, err, Exec, pure, ◌>>=◌}
use embers_diaries.Promotion.{
  PromotionPolicy, PromotionResult, Db, decide, will_promote, route, submit,
}
use embers_diaries.Promotion.Gates.{admits, is_pending, decide-admits}

module _ {S : Type 0} (db : Db S) (policy : PromotionPolicy) (mode : PromotionMode) where
  -- What `submit` does, given what the lookup of the proposal gave.
  abbrev pub submission : String → String → Result (Option MemoryProposal) → Exec S PromotionResult
  submission id validated_by (err e) s = (err e, s)
  submission id validated_by (ok none) s = (err key_error, s)
  submission id validated_by (ok (some q)) s =
      let d = decide db policy s mode id q in
      if is_pending db policy s q.status && admits db policy s mode q
      then (do
        ids ← db.promote id validated_by d.status d.method
        pure (record { decision = d; memory_id = some ids.0 }))
          s
      else (ok (record { decision = d; memory_id = none }), s)

  -- A submission for which no proposal can be read raises, and changes nothing. Where one is read, it
  -- is promoted, with the status and the method of the decision, exactly where it is pending and
  -- meets the criteria of the mode; otherwise no memory is returned and nothing changes.
  pub submit_lem :
      (id validated_by : String) (s : S)
      → submit db policy mode id validated_by s
        ≡ submission id validated_by (db.get_proposal s id) s
  unfolding submit route
  submit_lem id validated_by s = elim (Result-cases (db.get_proposal s id)) [
    | inr (e, p) ↦ rw p refl
    | inl (none, p) ↦ rw p refl
    | inl (some q, p) ↦ elim (Bool-cases (will_promote (decide db policy s mode id q))) [
      | inl b ↦ rw (p, b, sym (decide-admits db policy s mode id q) ∙ b) refl
      | inr b ↦ rw (p, b, sym (decide-admits db policy s mode id q) ∙ b) refl
    ]
  ]
