-- ===== src/Database/Wire/Tests.antt =====
-- A record as a dict, and back.
use embers_diaries.Prelude.{String, none, some, [], ◌∷◌, ◌==◌, if◌then◌else◌, nat_eq}
use embers_diaries.Core.Types.{DeprecationReason, EdgeType}
use embers_diaries.Core.Record.{EmberRecord, EdgeRef, Annotation, Time, end}
use embers_diaries.Core.Samples.{note}
use embers_diaries.Core.Result.{ok}
use embers_diaries.Database.Fields.{IsoFormat}

-- A clock with two times.
instance abbrev two_times : IsoFormat
two_times = record {
  isoformat = λ (t : Time). if nat_eq t 5 then "5" else "9";
  fromisoformat = λ (s : String). if s == "5" then ok 5 else ok 9;
}

abbrev edge : EdgeRef
edge = record {
  edge_id = "e";
  target_id = "b";
  edge_type = EdgeType.supports;
  weight = 0;
  confidence = 0;
  label = "supports";
  metadata = end;
  created_at = 5;
  valid_from = some 9;
  valid_until = none;
}

abbrev remark : Annotation
remark = record {
  id = "n";
  target_record_id = "a";
  content = "seen";
  context = "";
  annotation_type = "note";
  written_by = "ada";
  confidence = 0;
  timestamp = 9;
  related_record_ids = "b" ∷ [];
  tags = [];
}

abbrev full : EmberRecord
full = record (note "a") {
  content_hash = some "hash";
  deprecated_at = some 9;
  deprecation_reason = some DeprecationReason.merged;
  connections = edge ∷ [];
  annotations = remark ∷ [];
  embedding = some (0 ∷ []);
  tags = "rain" ∷ [];
}
