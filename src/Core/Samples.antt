-- ===== src/Core/Samples.antt =====
-- Sample data for tests: a digest that is the record's id, and a few records.
use embers_diaries.Prelude.{String, some}
use embers_diaries.Core.Record.{EmberRecord, Value, default_record, Hashing, HashPayload}

instance abbrev pub id_hashing : Hashing
id_hashing = record { digest = λ (p : HashPayload). p.record_id }

abbrev pub note : String → EmberRecord
note id = record (default_record id 5) { content = Value.text "seen" }

abbrev pub sealed_note : String → EmberRecord
sealed_note id = record (note id) { content_hash = some id }
