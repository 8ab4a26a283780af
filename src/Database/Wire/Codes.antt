-- ===== src/Database/Wire/Codes.antt =====
-- The values of the enumerations of embers/core/types.py that records hold, and back.
use embers_diaries.Prelude.{String, false, ◌==◌, ◌≡◌, refl, if◌then◌else◌}
use embers_diaries.Core.Types.{RecordType, DeprecationReason, EdgeType, type_value}
use embers_diaries.Core.Result.{value_error, Result, ok, err}

-- `RecordType(s)`
unfoldable pub type_of : String → Result RecordType
type_of s =
    if s == "document"
    then ok RecordType.document
    else if s == "node"
    then ok RecordType.node
    else if s == "edge"
    then ok RecordType.edge
    else if s == "timeseries"
    then ok RecordType.timeseries
    else if s == "vector"
    then ok RecordType.vector
    else if s == "raw"
    then ok RecordType.raw
    else if s == "evidence"
    then ok RecordType.evidence
    else if s == "proposal"
    then ok RecordType.proposal
    else if s == "conflict"
    then ok RecordType.conflict
    else if s == "session"
    then ok RecordType.session
    else if s == "failure"
    then ok RecordType.failure
    else if s == "feedback"
    then ok RecordType.feedback
    else err value_error

unfoldable pub reason_value : DeprecationReason → String
reason_value DeprecationReason.superseded = "superseded"
reason_value DeprecationReason.invalid = "invalid"
reason_value DeprecationReason.expired = "expired"
reason_value DeprecationReason.merged = "merged"
reason_value DeprecationReason.manual = "manual"

unfoldable pub reason_of : String → Result DeprecationReason
reason_of s =
    if s == "superseded"
    then ok DeprecationReason.superseded
    else if s == "invalid"
    then ok DeprecationReason.invalid
    else if s == "expired"
    then ok DeprecationReason.expired
    else if s == "merged"
    then ok DeprecationReason.merged
    else if s == "manual"
    then ok DeprecationReason.manual
    else err value_error

unfoldable pub edge_value : EdgeType → String
edge_value EdgeType.relates_to = "relates_to"
edge_value EdgeType.caused_by = "caused_by"
edge_value EdgeType.led_to = "led_to"
edge_value EdgeType.contradicts = "contradicts"
edge_value EdgeType.supports = "supports"
edge_value EdgeType.part_of = "part_of"
edge_value EdgeType.instance_of = "instance_of"
edge_value EdgeType.supersedes = "supersedes"
edge_value EdgeType.reflects_on = "reflects_on"
edge_value EdgeType.derived_from = "derived_from"
edge_value EdgeType.similar_to = "similar_to"
edge_value EdgeType.feedback_on = "feedback_on"
edge_value EdgeType.custom = "custom"

unfoldable pub edge_of : String → Result EdgeType
edge_of s =
    if s == "relates_to"
    then ok EdgeType.relates_to
    else if s == "caused_by"
    then ok EdgeType.caused_by
    else if s == "led_to"
    then ok EdgeType.led_to
    else if s == "contradicts"
    then ok EdgeType.contradicts
    else if s == "supports"
    then ok EdgeType.supports
    else if s == "part_of"
    then ok EdgeType.part_of
    else if s == "instance_of"
    then ok EdgeType.instance_of
    else if s == "supersedes"
    then ok EdgeType.supersedes
    else if s == "reflects_on"
    then ok EdgeType.reflects_on
    else if s == "derived_from"
    then ok EdgeType.derived_from
    else if s == "similar_to"
    then ok EdgeType.similar_to
    else if s == "feedback_on"
    then ok EdgeType.feedback_on
    else if s == "custom"
    then ok EdgeType.custom
    else err value_error

pub type_of-type_value : (t : RecordType) → type_of (type_value t) ≡ ok t
unfolding type_of type_value
type_of-type_value RecordType.document = refl
type_of-type_value RecordType.node = refl
type_of-type_value RecordType.edge = refl
type_of-type_value RecordType.timeseries = refl
type_of-type_value RecordType.vector = refl
type_of-type_value RecordType.raw = refl
type_of-type_value RecordType.evidence = refl
type_of-type_value RecordType.proposal = refl
type_of-type_value RecordType.conflict = refl
type_of-type_value RecordType.session = refl
type_of-type_value RecordType.failure = refl
type_of-type_value RecordType.feedback = refl

pub reason_of-reason_value :
    (r : DeprecationReason) → (reason_of (reason_value r) ≡ ok r) × ((reason_value r == "") ≡ false)
unfolding reason_of reason_value
reason_of-reason_value DeprecationReason.superseded = (refl, refl)
reason_of-reason_value DeprecationReason.invalid = (refl, refl)
reason_of-reason_value DeprecationReason.expired = (refl, refl)
reason_of-reason_value DeprecationReason.merged = (refl, refl)
reason_of-reason_value DeprecationReason.manual = (refl, refl)

pub edge_of-edge_value : (e : EdgeType) → edge_of (edge_value e) ≡ ok e
unfolding edge_of edge_value
edge_of-edge_value EdgeType.relates_to = refl
edge_of-edge_value EdgeType.caused_by = refl
edge_of-edge_value EdgeType.led_to = refl
edge_of-edge_value EdgeType.contradicts = refl
edge_of-edge_value EdgeType.supports = refl
edge_of-edge_value EdgeType.part_of = refl
edge_of-edge_value EdgeType.instance_of = refl
edge_of-edge_value EdgeType.supersedes = refl
edge_of-edge_value EdgeType.reflects_on = refl
edge_of-edge_value EdgeType.derived_from = refl
edge_of-edge_value EdgeType.similar_to = refl
edge_of-edge_value EdgeType.feedback_on = refl
edge_of-edge_value EdgeType.custom = refl
