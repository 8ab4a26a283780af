-- ===== src/Database/Proposal/Rejected.antt =====
-- A proposal that was rejected (embers/db.py).
use Prim.Native.String.{◌++◌ as append_text}
use embers_diaries.Engine.Writer.{update}
use embers_diaries.Prelude.{
  String, List, true, false, Option, none, some, [], ◌∷◌, ◌≡◌, refl, sym, ap, ◌∙◌, arith, ◌==◌,
  Bool-cases, inl, inr,
}
use embers_diaries.Core.Types.{ProposalStatus, RecordType}
use embers_diaries.Core.Record.{EmberRecord, Fields, Hashing, text, dict}
use embers_diaries.Core.Proposal.{MemoryProposal}
use embers_diaries.Core.Result.{
  value_error, key_error, then_pure, Error, Result-cases, Result, ok, err,
}
use embers_diaries.Storage
use embers_diaries.Storage.{Encoding, StorageLimits}
use embers_diaries.Engine.State.{Engine, UpdateDraw}
use embers_diaries.Engine.Reader.{get, get_current}
use embers_diaries.Engine.Sound.{IsSound}
use embers_diaries.Database.Fields.{IsoFormat, put_field, get_field-put_field, text_at, as_dict}
use embers_diaries.Database.Versions.{Body, is_of_type}
use embers_diaries.Database.Rewritten.{update-Replaced}
use embers_diaries.Database.Session.Operations.{revision}
use embers_diaries.Database.Proposal.Payload.{
  status_value, status_of, with_sources, payload, from_record,
}
use embers_diaries.Database.Proposal.Operations.{get_proposal, reject}

with_sources-status : (p : MemoryProposal) → (with_sources p).status ≡ p.status
unfolding with_sources
with_sources-status p = by_sources p.sources refl
  where
    by_sources : (xs : List String) → p.sources ≡ xs → (with_sources p).status ≡ p.status
    by_sources [] e = rw e refl
    by_sources (x ∷ xs) e = rw e refl

module _ ⦃i : IsoFormat⦄ where
  -- The data of a rejected proposal.
  abbrev rejected_data : MemoryProposal → String → Fields
  rejected_data p reason =
      put_field (put_field (payload p) "status" (text "rejected")) "rejection_reason" (text reason)

  status-rejected_data :
      (p : MemoryProposal) (reason : String)
      → text_at (rejected_data p reason) "status" "pending" ≡ ok "rejected"
  unfolding text_at
  status-rejected_data p reason =
      let marked = put_field (payload p) "status" (text "rejected") in
      rw
        (
          get_field-put_field marked "rejection_reason" "status" (text reason),
          get_field-put_field (payload p) "status" "status" (text "rejected"),
        )
        refl

  from_record-status :
      (d : Fields) (r : EmberRecord) (p : MemoryProposal)
      → r.content ≡ dict d
      → text_at d "status" "pending" ≡ ok "rejected"
      → from_record r ≡ ok p
      → p.status ≡ ProposalStatus.rejected
  unfolding from_record as_dict status_of
  from_record-status d r p content status q =
      grind (arith, rw content at q, status, with_sources-status)

module _ ⦃h : Hashing⦄ ⦃i : IsoFormat⦄ where
  -- What a proposal that was read says of the current version.
  get_proposal-current :
      (id : String) (r : EmberRecord) (p : MemoryProposal) (s : Engine)
      → get_current s.disk id ≡ ok (some r)
      → (get_proposal id s).0 ≡ ok (some p)
      → from_record r ≡ ok p
  unfolding get_proposal
  get_proposal-current id r p s current q = elim (Bool-cases (is_of_type RecordType.proposal r)) [
    | inr b ↦ absurd (ground (arith, rw (current, b) at q))
    | inl b ↦ elim (Result-cases (from_record r)) [
      | inr (e, f) ↦ absurd (ground (arith, rw (current, b, f) at q))
      | inl (p', f) ↦ ground (arith, rw (current, b, f) at q, f)
    ]
  ]

  get_proposal-keeps : (id : String) (s : Engine) → (get_proposal id s).1 ≡ s
  unfolding get_proposal
  get_proposal-keeps id s = elim (Result-cases (get_current s.disk id)) [
    | inr (e, a) ↦ rw a refl
    | inl (some r, a) ↦ rw a refl
    | inl (none, a) ↦ elim (Result-cases (get s.disk true true id)) [
      | inr (e, b) ↦ rw (a, b) refl
      | inl (o, b) ↦ rw (a, b) refl
    ]
  ]

  as_read :
      {x : Result (Option MemoryProposal)} (id : String) (s : Engine)
      → (get_proposal id s).0 ≡ x
      → get_proposal id s ≡ (x, s)
  as_read id s a = λ j. (a j, get_proposal-keeps id s j)

  pending_value :
      (s : ProposalStatus) → (status_value s == "pending") ≡ true → s ≡ ProposalStatus.pending
  unfolding status_value
  pending_value ProposalStatus.pending e = refl
  pending_value ProposalStatus.promoted e = absurd (ground (arith, e))
  pending_value ProposalStatus.rejected e = absurd (ground (arith, e))

  module _ ⦃c : Encoding⦄ (limits : StorageLimits) where
    -- Where every proposal that can be read under an id is rejected, a rejection raises.
    reject-raises :
        (u : UpdateDraw) (id reason rejected_by : String) (t : Engine)
        → ((q : MemoryProposal)
            → (get_proposal id t).0 ≡ ok (some q)
            → q.status ≡ ProposalStatus.rejected)
        → (e : Error) × (reject limits u id reason rejected_by t ≡ (err e, t))
    unfolding reject status_value
    reject-raises u id reason rejected_by t closed = elim (Result-cases ((get_proposal id t).0)) [
      | inr (e, a) ↦ (e, rw (as_read id t a) refl)
      | inl (none, a) ↦ (key_error, rw (as_read id t a) refl)
      | inl (some q, a) ↦ (value_error, rw (as_read id t a, closed q a) refl)
    ]

    -- A rejection that returns leaves a state in which the proposal cannot be rejected again: the
    -- proposal was pending, the id that is returned is the one drawn for the rejected version, and a
    -- further rejection under the id of the proposal raises and changes nothing. The disk before was
    -- sound, and the id drawn is not in use.
    pub reject_again :
        (u : UpdateDraw) (id reason rejected_by new_id : String) (s t : Engine)
        → IsSound s.disk
        → Storage.exists u.new_id s.disk ≡ false
        → reject limits u id reason rejected_by s ≡ (ok new_id, t)
        → (new_id ≡ u.new_id)
          × ((p : MemoryProposal) × ((get_proposal id s).0 ≡ ok (some p))
              × (p.status ≡ ProposalStatus.pending))
          × ((v : UpdateDraw) (why who : String)
              → (e : Error) × (reject limits v id why who t ≡ (err e, t)))
    unfolding reject
    reject_again u id reason rejected_by new_id s t sound fresh done =
        elim (Result-cases ((get_proposal id s).0)) [
          | inr (e, a) ↦ absurd (ground (arith, rw (as_read id s a) at done))
          | inl (none, a) ↦ absurd (ground (arith, rw (as_read id s a) at done))
          | inl (some p, a) ↦ elim (Bool-cases (status_value p.status == "pending")) [
            | inr b ↦ absurd (ground (arith, rw (as_read id s a, b) at done))
            | inl b ↦
                let (ids, wrote, own) =
                  then_pure
                    (update limits u id (dict (rejected_data p reason))
                      (revision rejected_by (append_text "proposal rejected: " reason)) s)
                    (λ (x : String × String). x.0) new_id t (rw (as_read id s a, b) at done) in
                let (same, after) =
                  update-Replaced limits u (dict (rejected_data p reason)) _ s id t ids sound fresh
                    refl wrote in
                let closed : (q : MemoryProposal)
                    → (get_proposal id t).0 ≡ ok (some q)
                    → q.status ≡ ProposalStatus.rejected =
                  λ q f.
                    from_record-status (rejected_data p reason) after.now q
                      (ap (λ (y : Body). y.1) after.replaced) (status-rejected_data p reason)
                      (get_proposal-current id after.now q t after.current f) in
                (
                  sym own ∙ ap (λ (x : String × String). x.0) same,
                  (p, a, pending_value p.status b),
                  λ v why who. reject-raises v id why who t closed,
                )
          ]
        ]
