-- ===== src/Core/Types.antt =====
-- embers/core/types.py: the enumerations, and the values under which records keep them.
use embers_diaries.Prelude.{String}

pub data RecordType : Type 0 where
  document node edge timeseries vector raw evidence proposal conflict session failure feedback :
      RecordType

pub RecordType-discrete : Discrete RecordType
RecordType-discrete = hlevel

-- The values of `RecordType`.
unfoldable pub type_value : RecordType → String
type_value RecordType.document = "document"
type_value RecordType.node = "node"
type_value RecordType.edge = "edge"
type_value RecordType.timeseries = "timeseries"
type_value RecordType.vector = "vector"
type_value RecordType.raw = "raw"
type_value RecordType.evidence = "evidence"
type_value RecordType.proposal = "proposal"
type_value RecordType.conflict = "conflict"
type_value RecordType.session = "session"
type_value RecordType.failure = "failure"
type_value RecordType.feedback = "feedback"

pub data AccessLevel : Type 0 where
  public private internal : AccessLevel

pub data SourceType : Type 0 where
  directly_observed inferred reported experimentally_verified imported manually_entered : SourceType

pub data ProposalStatus : Type 0 where
  pending promoted rejected : ProposalStatus

pub data MemoryStatus : Type 0 where
  verified provisional disputed superseded : MemoryStatus

pub data PromotionMethod : Type 0 where
  automatic consensus human direct : PromotionMethod

pub data PromotionMode : Type 0 where
  automatic consensus human hybrid : PromotionMode

pub data ConflictStatus : Type 0 where
  open_conflict investigating resolved accepted_both superseded : ConflictStatus

pub data SessionStatus : Type 0 where
  active completed abandoned : SessionStatus

pub data DeprecationReason : Type 0 where
  superseded invalid expired merged manual : DeprecationReason

pub data EdgeType : Type 0 where
  relates_to caused_by led_to contradicts supports part_of instance_of supersedes reflects_on :
      EdgeType
  derived_from similar_to feedback_on custom : EdgeType
