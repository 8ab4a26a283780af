-- ===== src/Core/Proposal.antt =====
-- embers/core/evidence.py and proposal.py: what supports a claim, and a discovery that awaits
-- validation.
use embers_diaries.Prelude.{String, Bool, true, false, Option, List, [], ◌∷◌}
use embers_diaries.Core.Types.{ProposalStatus, SourceType}
use embers_diaries.Core.Record.{Value, Float, Time}

pub record Evidence : Type 0 where
  pub evidence_id : String
  pub source : String
  pub source_type : SourceType
  pub reference : String
  pub description : String
  pub observed_at : Time
  pub agent_id : Option String
  pub session_id : Option String
  pub content_hash : Option String

pub record MemoryProposal : Type 0 where
  pub proposal_id : String
  pub namespace : String
  pub discovery : Value
  pub reason : String
  pub evidence : List Evidence
  pub sources : List String
  pub confidence : Float
  pub derivation : List String
  pub written_by : String
  pub agent_id : Option String
  pub session_id : Option String
  pub created_at : Time
  pub status : ProposalStatus
  pub tags : List String

-- `is_grounded`
abbrev pub is_grounded : MemoryProposal → Bool
is_grounded p = elim p.evidence [ [] ↦ false | e ∷ es ↦ true ]
