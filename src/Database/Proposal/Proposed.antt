-- ===== src/Database/Proposal/Proposed.antt =====
-- A proposal that was recorded, as `get_proposal` of embers/db.py reads it.
use embers_diaries.Prelude.{
  String, Bool, Option, [], ◌∷◌, ◌++◌, ◌≡◌, arith, ◌==◌, not, select, inl, inr,
}
use embers_diaries.Core.Types.{ProposalStatus}
use embers_diaries.Core.Record.{EmberRecord, Time, Hashing}
use embers_diaries.Core.Proposal.{MemoryProposal}
use embers_diaries.Core.Result.{Result-cases, ok}
use embers_diaries.Storage.{Encoding, StorageLimits, WriteDraw}
use embers_diaries.Engine.State.{Engine}
use embers_diaries.Engine.Writer.{write}
use embers_diaries.Engine.Sound.{IsSound}
use embers_diaries.Engine.Written.{write-IsSound}
use embers_diaries.Identity.Registry.{db_write, validate_provenance}
use embers_diaries.Database.Fields.{IsoFormat}
use embers_diaries.Database.Evidence.{EvidenceHash}
use embers_diaries.Database.Proposal.Payload.{with_sources, seal_all}
use embers_diaries.Database.Proposal.Operations.{proposal_record, propose}

-- The part of a record that says who wrote it, and when.
abbrev Authorship : Type 0
Authorship = String × Option String × Option String × Time

abbrev authorship : EmberRecord → Authorship
authorship r = (r.written_by, r.agent_id, r.session_id, r.created_at)

module _ ⦃h : Hashing⦄ ⦃i : IsoFormat⦄ ⦃e : EvidenceHash⦄ where
  -- A proposal as it is recorded at a time: sealed, pending, with the sources of its evidence where it
  -- names none, and without a tag of its own that reads `proposal`.
  abbrev pub recorded_proposal : Time → MemoryProposal → MemoryProposal
  recorded_proposal recorded p = with_sources (record (seal_all p) {
    created_at = recorded;
    status = ProposalStatus.pending;
    tags = select (λ t. not (t == "proposal")) (p.tags ++ "proposal" ∷ []);
  })

  abbrev as_pending : MemoryProposal → MemoryProposal
  as_pending p = record (seal_all p) { status = ProposalStatus.pending }

  module _ ⦃c : Encoding⦄ (limits : StorageLimits) where
    written_by_propose :
        (enforce : Bool) (w : WriteDraw) (recorded : Time) (p : MemoryProposal) (id : String)
        (s t : Engine)
        → propose limits enforce w recorded p s ≡ (ok id, t)
        → write limits w (proposal_record recorded (as_pending p)) s ≡ (ok id, t)
    unfolding propose db_write
    written_by_propose enforce w recorded p id s t q =
        let r = proposal_record recorded (as_pending p) in
        elim (Result-cases (validate_provenance r.written_by r.agent_id enforce)) [
          | inr (x, v) ↦ absurd (ground (arith, rw v at q))
          | inl (u', v) ↦ rw v at q
        ]

    -- Recording a proposal keeps a sound disk sound.
    pub propose-IsSound :
        (enforce : Bool) (w : WriteDraw) (recorded : Time) (p : MemoryProposal) (id : String)
        (s t : Engine)
        → IsSound s.disk
        → propose limits enforce w recorded p s ≡ (ok id, t)
        → IsSound t.disk
    propose-IsSound enforce w recorded p id s t sound q =
        write-IsSound limits w (proposal_record recorded (as_pending p)) s t id
          (written_by_propose enforce w recorded p id s t q) sound
