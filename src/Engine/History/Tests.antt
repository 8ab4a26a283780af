-- ===== src/Engine/History/Tests.antt =====
-- Reads of a history: the theorem at a concrete disk.
use embers_diaries.Prelude.{while, none, some, List, [], ◌∷◌, ◌≡◌, ◌⊎◌, ◌<◌, refl, All}
use embers_diaries.Dict
use embers_diaries.Storage
use embers_diaries.Core.Record.{
  EmberRecord, verify_integrity, compute_content_hash, canonical_hash_payload,
}
use embers_diaries.Core.Samples.{sealed_note, id_hashing}
use embers_diaries.Core.Result.{ok}
use embers_diaries.Storage.{Disk, empty_disk, stored}
use embers_diaries.Engine.Writer.{
  get_supersession_chain, is_deprecated, get_access_stats, get_annotations,
}
use embers_diaries.Engine.Reader.{get, get_at, get_history, get_many, hidden, overlay, successor}
use embers_diaries.Engine.History.{IsLastBy, get_at_lem}

abbrev second_note : EmberRecord
second_note = record (sealed_note "b") { created_at = 9 }

-- A note of time 5 and its next version, of time 9.
abbrev two_versions : Disk
two_versions = record empty_disk {
  records = ("a", stored (sealed_note "a")) ∷ ("b", stored second_note) ∷ [];
  supersessions = ("a", record { old_id = "a"; new_id = "b"; timestamp = 9 }) ∷ [];
}

abbrev versions : List EmberRecord
versions = record (sealed_note "a") { superseded_by = some "b" } ∷ second_note ∷ []

get_at_lem_example :
    ((get_at two_versions "a" 7 ≡ ok none) × All (λ (r : EmberRecord). 7 < r.created_at) versions)
    ⊎ ((r : EmberRecord) × (get_at two_versions "a" 7 ≡ ok (some r)) × IsLastBy 7 versions r)
unfolding get_history get_many get_supersession_chain while Dict.get get Storage.read
    verify_integrity compute_content_hash canonical_hash_payload hidden is_deprecated successor
    overlay get_access_stats get_annotations
get_at_lem_example = get_at_lem two_versions "a" 7 versions refl
