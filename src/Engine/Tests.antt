-- ===== src/Engine/Tests.antt =====
-- Runs of the engine: the theorems at concrete calls.
use embers_diaries.Prelude.{
  if◌then◌else◌, ◌==◌, while, String, Option, none, some, List, [], ◌∷◌, ◌≡◌, ◌≢◌, refl, arith, ap,
  ◌∙◌, eq_iff,
}
use embers_diaries.Core.Types.{DeprecationReason}
use embers_diaries.Core.Record.{
  EmberRecord, Value, seal, compute_content_hash, canonical_hash_payload, verify_integrity,
}
use embers_diaries.Core.Samples.{note, id_hashing}
use embers_diaries.Core.Result.{Result, ok, err}
use embers_diaries.Dict
use embers_diaries.Storage
use embers_diaries.Storage.{empty_disk, Encoding, StorageLimits, WriteDraw}
use embers_diaries.Index.Master
use embers_diaries.Engine.State.{Engine, UpdateDraw, on_write}
use embers_diaries.Engine.Writer.{
  deprecate, write, resolve_target, supersede, new_version, chain_walk, chain_step, chain_goes_on,
  mark_superseded, UpdateArgs, update, hash_of, stale, get_superseded_by, get_supersession_chain,
  last_of,
}
use embers_diaries.Engine.Reader.{get_current}
use embers_diaries.Engine.Current.{head_record, get_current_lem}
use embers_diaries.Engine.Deprecation.{update-deprecate}
use embers_diaries.Engine.Operations.{
  Op, write_op, update_op, deprecate_op, access_op, run_ops, apply_op,
}
use embers_diaries.Engine.AppendOnly.{Preserved, run_ops-Preserved}
use embers_diaries.Engine.Synced.{IsSynced, run_ops-IsSynced, empty-IsSynced}
use embers_diaries.Engine.Lineage.{IsLineage, run_ops-IsLineage, empty-IsLineage}
use embers_diaries.Engine.Chain.{Follows, last_of-get_supersession_chain}
use embers_diaries.Engine.Cas.{head_of, update-expected_hash, update_race}

instance abbrev unit_size : Encoding
unit_size = record { encoded_size = λ (r : EmberRecord). 10 }

abbrev unlimited : StorageLimits
unlimited = record { max_store_bytes = 0; max_record_bytes = 0 }

abbrev draw : String → WriteDraw
draw w = record { wal_id = w; now = 7 }

abbrev draw_update : String → UpdateDraw
draw_update id = record { new_id = id; write_draw = draw id }

-- An update by Ada, under a hash that she read.
abbrev expecting : String → UpdateArgs
expecting hash = record {
  written_by = "ada";
  agent_id = none;
  session_id = none;
  creation_reason = none;
  derived_from = [];
  expected_hash = some hash;
}

abbrev blank : Engine
blank = record { disk = empty_disk; index = Master.empty }

abbrev first_write : List Op
first_write = write_op (draw "w1") (note "a") ∷ []

-- One record, and the state after it.
abbrev started : Engine
started = run_ops unlimited first_write blank

abbrev calls : List Op
calls =
    write_op (draw "w1") (note "a")
    ∷ update_op (draw_update "b") "a" (Value.text "again") (expecting "a")
    ∷ update_op (draw_update "c") "a" (Value.text "late") (expecting "a")
    ∷ deprecate_op "b" DeprecationReason.manual "" "ada" 8
    ∷ access_op 9 "a"
    ∷ []

run_ops-Preserved_example : Preserved started.disk (run_ops unlimited calls started).disk
run_ops-Preserved_example = run_ops-Preserved unlimited calls started

run_ops-IsSynced_example :
    IsSynced (run_ops unlimited calls blank).disk (run_ops unlimited calls blank).index
run_ops-IsSynced_example = run_ops-IsSynced unlimited calls blank empty-IsSynced

run_ops-IsLineage_example : IsLineage (run_ops unlimited calls blank).disk
unfolding Storage.exists Dict.get Dict.put run_ops apply_op write seal Storage.write
    Storage.check_write_limits Storage.total_size Storage.file_size Storage.increment_record_count
    Storage.commit_write Storage.write_record_file Storage.log_write update resolve_target supersede
    new_version hash_of get_superseded_by get_supersession_chain chain_walk chain_step chain_goes_on
    while mark_superseded compute_content_hash canonical_hash_payload on_write Storage.read
    verify_integrity
run_ops-IsLineage_example =
    run_ops-IsLineage unlimited calls blank (tt, (refl, (refl, (tt, (tt, tt))))) empty-IsLineage

abbrev started-IsLineage : IsLineage started.disk
started-IsLineage = run_ops-IsLineage unlimited first_write blank (tt, tt) empty-IsLineage

last_of-get_supersession_chain_example :
    let head = last_of (get_supersession_chain started.disk "a") "a" in
    Follows started.disk "a" head × (get_superseded_by started.disk head ≡ none)
last_of-get_supersession_chain_example =
    last_of-get_supersession_chain started.disk started-IsLineage "a"

abbrev raced : Engine
raced = (update unlimited (draw_update "b") "a" (Value.text "again") (expecting "a") started).1

update-expected_hash_example :
    (◌≡◌ {A = String} "b" "b")
    × ("a" ≡ head_of started.disk "a")
    × ((head : EmberRecord) × (Storage.read (head_of started.disk "a") started.disk
          ≡ ok (some head))
        × (hash_of head ≡ "a"))
    × ((k : String)
        → get_superseded_by raced.disk k
          ≡ (if head_of started.disk "a" == k then some "b" else get_superseded_by started.disk k))
unfolding Storage.exists Dict.get Dict.put run_ops apply_op write seal Storage.write
    Storage.check_write_limits Storage.total_size Storage.file_size Storage.increment_record_count
    Storage.commit_write Storage.write_record_file Storage.log_write update resolve_target supersede
    new_version hash_of get_superseded_by get_supersession_chain chain_walk chain_step chain_goes_on
    while mark_superseded compute_content_hash canonical_hash_payload on_write Storage.read
    verify_integrity
update-expected_hash_example =
    update-expected_hash unlimited (draw_update "b") "a" (Value.text "again") (expecting "a") "a"
      started raced "b" "a" refl refl

-- The hash of a record that was read.
abbrev hash_in : Result (Option EmberRecord) → String
hash_in (ok (some r)) = hash_of r
hash_in (ok none) = ""
hash_in (err e) = ""

not_a : (r : EmberRecord) → Storage.read "b" raced.disk ≡ ok (some r) → hash_of r ≢ "a"
unfolding Storage.exists Dict.get Dict.put run_ops apply_op write seal Storage.write
    Storage.check_write_limits Storage.total_size Storage.file_size Storage.increment_record_count
    Storage.commit_write Storage.write_record_file Storage.log_write update resolve_target supersede
    new_version hash_of get_superseded_by get_supersession_chain chain_walk chain_step chain_goes_on
    while mark_superseded compute_content_hash canonical_hash_payload on_write Storage.read
    verify_integrity
not_a r p q =
    let same : ◌≡◌ {A = String} "b" "a" = ap hash_in p ∙ q in
    absurd (ground (arith, (eq_iff "b" "a").1 same))

update_race_example :
    (r : EmberRecord) × (Storage.read "b" raced.disk ≡ ok (some r))
    × (update unlimited (draw_update "c") "a" (Value.text "late") (expecting "a") raced
        ≡ (err (stale "a" "a" "b" r), raced))
unfolding Storage.exists Dict.get Dict.put run_ops apply_op write seal Storage.write
    Storage.check_write_limits Storage.total_size Storage.file_size Storage.increment_record_count
    Storage.commit_write Storage.write_record_file Storage.log_write update resolve_target supersede
    new_version hash_of get_superseded_by get_supersession_chain chain_walk chain_step chain_goes_on
    while mark_superseded compute_content_hash canonical_hash_payload on_write Storage.read
    verify_integrity
update_race_example =
    update_race unlimited (draw_update "b") (draw_update "c") "a" (Value.text "again")
      (Value.text "late") (expecting "a") (expecting "a") "a" "b" "a" started raced
      started-IsLineage refl refl refl refl not_a

get_current_lem_example : get_current started.disk "a" ≡ head_record started.disk "a"
get_current_lem_example = get_current_lem started.disk "a" started-IsLineage

update-deprecate_example :
    (update unlimited
      (draw_update "b")
      "a"
      (Value.text "again")
      (expecting "a")
      (deprecate "a" DeprecationReason.manual "" "ada" 8 started).1).0
    ≡ (update unlimited (draw_update "b") "a" (Value.text "again") (expecting "a") started).0
update-deprecate_example =
    update-deprecate unlimited "a" DeprecationReason.manual "" "ada" 8 (draw_update "b") "a"
      (Value.text "again") (expecting "a") started
