-- ===== src/Storage/Reads.antt =====
-- What a read that returns a record says of the disk.
use embers_diaries.Prelude.{String, Option, none, some, ◌≡◌, refl, ◌∙◌, arith, eq_refl}
use embers_diaries.Dict
use embers_diaries.Core.Record.{EmberRecord, Hashing, verify_integrity, compute_content_hash}
use embers_diaries.Core.Result.{ok}
use embers_diaries.Storage.{Disk, RecordFile, stored, damaged, read}

module _ ⦃h : Hashing⦄ where
  -- A record that is read is the one that its file holds, unaltered.
  pub read-stored :
      (id : String) (d : Disk) {r : EmberRecord}
      → read id d ≡ ok (some r)
      → Dict.get d.records id ≡ some (stored r)
  unfolding read
  read-stored id d {r} p = by_file (Dict.get d.records id) refl
    where
      by_file :
          (f : Option RecordFile)
          → Dict.get d.records id ≡ f
          → Dict.get d.records id ≡ some (stored r)
      by_file none e = absurd (ground (arith, e))
      by_file (some (damaged n)) e = absurd (ground (arith, e))
      by_file (some (stored q)) e = e ∙ ground (arith, e)

  -- A sealed record whose file is there is read back.
  pub read_sealed :
      (id : String) (d : Disk) (r : EmberRecord)
      → Dict.get d.records id ≡ some (stored r)
      → r.content_hash ≡ some (compute_content_hash r)
      → read id d ≡ ok (some r)
  unfolding read verify_integrity
  read_sealed id d r there sealed = ground (arith, there, sealed, eq_refl (compute_content_hash r))
