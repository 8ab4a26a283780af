-- ===== src/Database/Conflict/Mapping/Tests.antt =====
-- A pair of memories, mapped twice.
use embers_diaries.Prelude.{
  String, some, none, List, [], ◌∷◌, ◌≡◌, refl, ◌==◌, if◌then◌else◌, nat_eq, while,
}
use embers_diaries.Core.Types.{type_value}
use embers_diaries.Core.Record.{
  EmberRecord, Time, seal, canonical_hash_payload, compute_content_hash, verify_integrity,
}
use embers_diaries.Core.Samples.{id_hashing, note}
use embers_diaries.Core.Result.{ok}
use embers_diaries.Dict
use embers_diaries.Storage
use embers_diaries.Storage.{empty_disk, Encoding, StorageLimits, WriteDraw}
use embers_diaries.Index.Master
use embers_diaries.Index.Graph
use embers_diaries.Index.Graph.{empty_graph, neighbors, both_edges}
use embers_diaries.Engine.State.{Engine, on_write, index_record}
use embers_diaries.Engine.Operations.{Op, write_op, run_ops, apply_op}
use embers_diaries.Engine.Sound.{IsSound, run_ops-IsSound, empty-IsSound}
use embers_diaries.Engine.Synced.{IsSynced, run_ops-IsSynced, empty-IsSynced}
use embers_diaries.Engine.Writer.{
  access_count_of, get_access_stats, get_annotations, get_superseded_by, get_supersession_chain,
  chain_goes_on, chain_step, chain_walk, is_deprecated, write,
}
use embers_diaries.Engine.Reader.{
  get, get_current, get_many, get_namespace, hidden, overlay, successor, with_access,
  with_deprecated, with_successor,
}
use embers_diaries.Database.Fields.{
  required_text, IsoFormat, as_dict, get_field, of_texts, put_field, text_at, texts_at, texts_in,
  time_at,
}
use embers_diaries.Database.Listing.{
  fold_result, all_namespaces, list_version, list_record, list_namespace,
}
use embers_diaries.Namespace.{Manager, check_read, check_write}
use embers_diaries.Database.Session.Operations.{Spare}
use embers_diaries.Database.Conflict.Payload.{
  Conflict, ConflictType, PairHash, from_record, from_dict, payload, kind_value, kind_of,
  status_value, status_of, ordered,
}
use embers_diaries.Database.Conflict.Mapping.{
  Store, MapDraw, map_conflict, asked_conflict, is_closed, conflict_records, find_live_conflict,
  conflict_record, may_map, link, map_new,
}

-- What a run computes through.
program : Unit {0}
unfolding Storage.exists Dict.get Dict.put run_ops apply_op write seal Storage.write
    Storage.check_write_limits Storage.increment_record_count Storage.commit_write
    Storage.write_record_file Storage.log_write Storage.file_size Storage.total_size Storage.read
    canonical_hash_payload compute_content_hash verify_integrity type_value as_dict get_field
    of_texts put_field text_at texts_at texts_in time_at get get_current get_many get_namespace
    hidden overlay successor with_access with_deprecated with_successor access_count_of
    get_access_stats get_superseded_by get_supersession_chain chain_goes_on chain_step chain_walk
    is_deprecated get_annotations on_write index_record Master.index_record Master.get_namespace_ids
    Master.set_at Master.add_at Master.add_at_each Master.add_at_present Master.is_deprecated
    Master.is_superseded Graph.add_edge while from_record from_dict payload kind_value kind_of
    status_value status_of ordered required_text check_read check_write fold_result all_namespaces
    list_version list_record list_namespace is_closed conflict_records find_live_conflict
    conflict_record may_map asked_conflict link map_new map_conflict
program = tt

-- A clock with two times.
instance abbrev two_times : IsoFormat
two_times = record {
  isoformat = λ (t : Time). if nat_eq t 7 then "7" else "9";
  fromisoformat = λ (s : String). if s == "7" then ok 7 else ok 9;
}

instance abbrev unit_size : Encoding
unit_size = record { encoded_size = λ (r : EmberRecord). 10 }

instance abbrev by_first : PairHash
by_first = record { pair_hash = λ (n a b k : String). a }

abbrev unlimited : StorageLimits
unlimited = record { max_store_bytes = 0; max_record_bytes = 0 }

abbrev draw : String → WriteDraw
draw w = record { wal_id = w; now = 7 }

abbrev spare : Spare
spare = record { spare_id = "spare"; spare_time = 9 }

abbrev everyone : Manager
everyone = record { namespaces = []; registry = none }

abbrev blank : Engine
blank = record { disk = empty_disk; index = Master.empty }

abbrev writes : List Op
writes = write_op (draw "a") (note "a") ∷ write_op (draw "b") (note "b") ∷ []

abbrev two_notes : Store
two_notes = record { engine = run_ops unlimited writes blank; graph = empty_graph }

abbrev two_notes-IsSound : IsSound two_notes.engine.disk
two_notes-IsSound = run_ops-IsSound unlimited writes blank (tt, (tt, tt)) empty-IsSound

abbrev two_notes-IsSynced : IsSynced two_notes.engine.disk two_notes.engine.index
two_notes-IsSynced = run_ops-IsSynced unlimited writes blank empty-IsSynced

abbrev map_draw : String → MapDraw
map_draw id = record {
  conflict_id = id;
  detected_at = 7;
  recorded = 7;
  write_draw = draw id;
  edge_id = "e";
}

abbrev mapped : Store
mapped =
    (map_conflict everyone spare unlimited (map_draw "c") "b" "a" "ada" ConflictType.semantic ""
      two_notes).1

first_call :
    map_conflict everyone spare unlimited
      (map_draw "c")
      "b"
      "a"
      "ada"
      ConflictType.semantic
      ""
      two_notes
    ≡ (ok "c", mapped)
unfolding program
first_call = refl

second_call :
    map_conflict everyone spare unlimited
      (map_draw "d")
      "a"
      "b"
      "bob"
      ConflictType.semantic
      ""
      mapped
    ≡ (ok "c", mapped)
unfolding program
second_call = refl

contradicts_both_ways : neighbors mapped.graph (some "contradicts") both_edges "a" 1 ≡ "b" ∷ []
unfolding program neighbors
contradicts_both_ways = refl
