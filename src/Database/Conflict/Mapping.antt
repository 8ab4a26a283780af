-- ===== src/Database/Conflict/Mapping.antt =====
-- `map_conflict`, `conflict_records`, `_find_live_conflict` and `conflicts_for` of embers/db.py, with
-- `link`. The registry of namespaces, which they only read, is an argument; so is what reading a
-- conflict draws. The graph index stands beside the engine.
mod Tests
use embers_diaries.Prelude.{
  ℕ, String, Bool, true, false, Option, none, some, List, [], ◌∷◌, ◌++◌, ◌==◌, ◌||◌, ◌&&◌,
  if◌then◌else◌, not, is_some, select, find_first,
}
use embers_diaries.Core.Types.{RecordType, ConflictStatus, type_value}
use embers_diaries.Core.Record.{EmberRecord, Hashing, Time, default_record, dict, end}
use embers_diaries.Core.Result.{
  value_error, key_error, access_denied, Result, ok, err, Exec, pure, lift, require, raise_if, gets,
  modify, ◌>>=◌, ◌>>◌,
}
use embers_diaries.Storage
use embers_diaries.Storage.{Disk, Encoding, StorageLimits, WriteDraw}
use embers_diaries.Index.Graph
use embers_diaries.Index.Graph.{GraphState, GraphEdge}
use embers_diaries.Index.Master.{MasterIndex}
use embers_diaries.Engine.State.{Engine}
use embers_diaries.Engine.Writer.{write}
use embers_diaries.Engine.Reader.{get}
use embers_diaries.Engine.Reader
use embers_diaries.Namespace.{Manager, check_read, check_write}
use embers_diaries.Database.Fields.{IsoFormat}
use embers_diaries.Database.Versions.{is_of_type}
use embers_diaries.Database.Listing.{
  Listed, nothing_listed, fold_result, all_namespaces, list_namespace,
}
use embers_diaries.Database.Session.Operations.{Spare}
use embers_diaries.Database.Conflict.Payload.{
  Conflict, ConflictType, kind_value, PairHash, status_value, is_terminal, ordered, payload,
  from_record,
}

-- The engine and the graph index of a database.
pub record Store : Type 0 where
  pub engine : Engine
  pub graph : GraphState

abbrev pub on_engine : {A : Type 0} → Exec Engine A → Exec Store A
on_engine m s = let (result, e) = m s.engine in (result, record s { engine = e })

-- `link`, with the id that it draws for the edge and the weight 1.0.
unfoldable pub link : String → String → String → String → String → Exec Store Bool
link edge_id from_id to_id edge_type label s =
    if not (Storage.exists from_id s.engine.disk) || not (Storage.exists to_id s.engine.disk)
    then (ok false, s)
    else (
      ok true,
      record s {
        graph =
            Graph.add_edge from_id
              (record {
                target = to_id;
                edge_type = edge_type;
                weight = 0x3ff0000000000000;
                edge_id = edge_id;
                label = label;
                metadata = end;
              })
              s.graph;
      },
    )

-- The statuses of a closed conflict.
unfoldable pub is_closed : Conflict → Bool
unfolding status_value
is_closed c = is_terminal (status_value c.status)

-- `pair_fingerprint`
abbrev pub pair_fingerprint : ⦃p : PairHash⦄ → Conflict → String
pair_fingerprint ⦃p⦄ c = p.pair_hash c.namespace c.memory_a c.memory_b (kind_value c.conflict_type)

abbrev pub is_live_pair : ⦃p : PairHash⦄ → String → Conflict → Bool
is_live_pair fingerprint c = (pair_fingerprint c == fingerprint) && not (is_closed c)

-- `_DURABLE_MEMORY_TYPES`
abbrev pub is_durable : EmberRecord → Bool
is_durable r = is_of_type RecordType.node r || is_of_type RecordType.document r

abbrev has_status : Option ConflictStatus → Conflict → Bool
has_status none c = true
has_status (some status) c = status_value c.status == status_value status

abbrev is_denied : Manager → Option String → String → Bool
is_denied m none namespace = false
is_denied m (some caller) namespace = not (check_read m namespace caller)

-- What mapping a conflict draws: its id, the two clocks, the write and the edge.
pub record MapDraw : Type 0 where
  pub conflict_id : String
  pub detected_at : Time
  pub recorded : Time
  pub write_draw : WriteDraw
  pub edge_id : String

module _ ⦃h : Hashing⦄ ⦃i : IsoFormat⦄ (m : Manager) (d : Spare) where
  namespaces_of : Disk → Option String → Result (List String)
  namespaces_of disk none = all_namespaces disk
  namespaces_of disk (some namespace) = ok (namespace ∷ [])

  -- The sweep of one namespace, where the caller may read it.
  list_conflicts :
      Engine
      → Option String
      → Option ConflictStatus
      → Option String
      → String
      → Listed Conflict
      → Result (Listed Conflict)
  list_conflicts s given status caller namespace l =
      if is_denied m caller namespace
      then (if is_some given then err access_denied else ok l)
      else list_namespace s.disk RecordType.conflict (from_record d.spare_id d.spare_time)
          (has_status status) s.index namespace l

  -- `conflict_records`
  unfoldable pub conflict_records :
      Option String → Option ConflictStatus → Option String → Engine → Result (List Conflict)
  unfolding namespaces_of list_conflicts
  conflict_records namespace status caller s =
      Reader.◌>>=◌ (namespaces_of s.disk namespace) λ namespaces.
        Reader.◌>>=◌
          (fold_result (list_conflicts s namespace status caller) namespaces nothing_listed)
          λ l. ok l.out

  -- The conflicts of the memory that was read.
  conflicts_of :
      String → Bool → Option String → Option EmberRecord → Engine → Result (List Conflict)
  unfolding conflict_records is_closed
  conflicts_of memory_id include_closed caller none s =
      if is_some caller then err key_error else ok []
  conflicts_of memory_id include_closed caller (some memory) s =
      if is_denied m caller memory.namespace
      then err access_denied
      else Reader.◌>>=◌ (conflict_records (some memory.namespace) none caller s) λ cs. ok (
          select
            (λ (c : Conflict).
              ((c.memory_a == memory_id) || (c.memory_b == memory_id))
              && (include_closed || not (is_closed c)))
            cs)

  -- `conflicts_for`
  unfoldable pub conflicts_for : String → Bool → Option String → Engine → Result (List Conflict)
  unfolding conflicts_of
  conflicts_for memory_id include_closed caller s =
      Reader.◌>>=◌ (get s.disk true true memory_id)
        λ found. conflicts_of memory_id include_closed caller found s

  module _ ⦃p : PairHash⦄ where
    -- `_find_live_conflict`
    unfoldable pub find_live_conflict : String → Engine → Result (Option Conflict)
    find_live_conflict fingerprint s =
        Reader.◌>>=◌ (conflict_records none none none s)
          λ cs. ok (find_first (is_live_pair fingerprint) cs)

    -- The record of a new conflict.
    unfoldable pub conflict_record : MapDraw → String → Conflict → EmberRecord
    conflict_record u detected_by c = record (default_record c.conflict_id u.recorded) {
      namespace = c.namespace;
      record_type = RecordType.conflict;
      content = dict (payload c);
      written_by = detected_by;
      agent_id = some detected_by;
      creation_reason = some "semantic conflict mapped";
      tags = c.tags ++ "conflict" ∷ [];
    }

    abbrev pub new_conflict :
        MapDraw → String → String → String → String → ConflictType → String → Conflict
    new_conflict u namespace a b detected_by kind note = record {
      conflict_id = u.conflict_id;
      namespace = namespace;
      memory_a = a;
      memory_b = b;
      conflict_type = kind;
      detected_at = u.detected_at;
      detected_by = detected_by;
      status = ConflictStatus.open_conflict;
      resolution = "";
      winner_id = "";
      note = note;
      tags = [];
    }

    abbrev is_semantic : ConflictType → Bool
    is_semantic ConflictType.semantic = true
    is_semantic ConflictType.storage = false

    -- What is asked of two memories that were read, in the order of the code.
    unfoldable pub may_map : EmberRecord → EmberRecord → String → ConflictType → Result (Unit {0})
    may_map record_a record_b detected_by kind =
        if not (check_read m record_a.namespace detected_by)
        then err access_denied
        else if not (check_read m record_b.namespace detected_by)
        then err access_denied
        else if not (record_a.namespace == record_b.namespace)
        then err value_error
        else if not (check_write m record_a.namespace detected_by)
        then err access_denied
        else if not (is_durable record_a)
        then err value_error
        else if not (is_durable record_b)
        then err value_error
        else if not (is_semantic kind)
        then err value_error
        else ok tt

    found_memory : Option EmberRecord → Result EmberRecord
    found_memory none = err key_error
    found_memory (some r) = ok r

    -- The conflict that a call asks for.
    unfoldable pub asked_conflict :
        MapDraw → String → String → String → ConflictType → String → Disk → Result Conflict
    unfolding found_memory
    asked_conflict u a b detected_by kind note disk =
        if a == b
        then err value_error
        else Reader.◌>>=◌ (Reader.◌>>=◌ (get disk true true a) found_memory) λ record_a.
          Reader.◌>>=◌ (Reader.◌>>=◌ (get disk true true b) found_memory) λ record_b.
            Reader.◌>>=◌ (may_map record_a record_b detected_by kind)
              λ allowed. ordered (new_conflict u record_a.namespace a b detected_by kind note)

    module _ ⦃c : Encoding⦄ (limits : StorageLimits) where
      -- A pair for which no conflict is live is mapped.
      unfoldable pub map_new :
          MapDraw → String → String → String → Conflict → Option Conflict → Exec Store String
      unfolding conflict_record
      map_new u a b detected_by conflict (some old) = pure old.conflict_id
      map_new u a b detected_by conflict none = do
        id ← on_engine (write limits u.write_draw (conflict_record u detected_by conflict))
        linked ← link u.edge_id a b "contradicts" "contradicts"
        pure id

      -- `map_conflict`
      unfoldable pub map_conflict :
          MapDraw → String → String → String → ConflictType → String → Exec Store String
      unfolding map_new
      map_conflict u a b detected_by kind note = do
        conflict ← (λ s. (asked_conflict u a b detected_by kind note s.engine.disk, s))
        existing ← (λ s. (find_live_conflict (pair_fingerprint conflict) s.engine, s))
        map_new u a b detected_by conflict existing
