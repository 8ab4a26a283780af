-- ===== src/Storage/Limits.antt =====
-- The limits of `write`, and what a write does to the store on each branch.
use embers_diaries.Prelude.{
  ℕ, ◌↔◌, ap, ◌∙◌, ◌+◌, ◌≤◌, ◌<◌, String, none, [], ◌∷◌, ◌≡◌, ◌≢◌, arith, ◌⊎◌, inl, inr,
}
use embers_diaries.Dict
use embers_diaries.Dict.{Dict}
use embers_diaries.Core.Record.{EmberRecord}
use embers_diaries.Core.Result.{Error, Result-cases, storage_limit, ok, err}
use embers_diaries.Storage.{
  RecordFile, stored, Disk, StorageLimits, Encoding, WriteDraw, write_record_file, log_write,
  commit_write, increment_record_count, write_steps, run_steps, file_size, total_size,
  check_write_limits, write,
}

module _ ⦃c : Encoding⦄ where
  total_size-put_absent :
      (d : Dict RecordFile) (k : String) (f : RecordFile)
      → Dict.get d k ≡ none
      → total_size (Dict.put d k f) ≡ total_size d + file_size f
  unfolding total_size Dict.put Dict.get
  total_size-put_absent [] k f h = omega arith
  total_size-put_absent ((j, g) ∷ d) k f h = ground (arith, total_size-put_absent d k f)

  -- Writing one file adds its size, or nothing where the file was there.
  total_size-write_record_file-le :
      (r : EmberRecord) (d : Disk)
      → total_size (write_record_file r d).records ≤ total_size d.records + c.encoded_size r
  unfolding write_record_file file_size
  total_size-write_record_file-le r d =
      ground (arith, total_size-put_absent d.records r.id (stored r))

  records-run_steps :
      (w : WriteDraw) (r : EmberRecord) (d : Disk)
      → (run_steps (write_steps w r) d).records ≡ (write_record_file r d).records
  unfolding log_write commit_write increment_record_count write_record_file
  records-run_steps w r d = ground arith

  module _ (l : StorageLimits) (r : EmberRecord) (d : Disk) where
    -- Either the limits allow the write and it runs whole, or it raises and changes nothing.
    pub write-cases :
        (w : WriteDraw)
        → ((check_write_limits l d.records (c.encoded_size r) ≡ ok tt)
            × (write l w r d ≡ (ok r.id, run_steps (write_steps w r) d)))
          ⊎ ((e : Error) × (check_write_limits l d.records (c.encoded_size r) ≡ err e)
              × (write l w r d ≡ (err e, d)))
    unfolding write
    write-cases w = elim (Result-cases (check_write_limits l d.records (c.encoded_size r))) [
      | inl (u, p) ↦ inl (p, rw p)
      | inr (e, p) ↦ inr (e, p, rw p)
    ]

    check_write_limits-ok :
        check_write_limits l d.records (c.encoded_size r) ≡ ok tt
        → ((l.max_record_bytes ≡ 0) ⊎ (c.encoded_size r ≤ l.max_record_bytes))
          × ((l.max_store_bytes ≡ 0)
              ⊎ (total_size d.records + c.encoded_size r ≤ l.max_store_bytes))
    unfolding check_write_limits
    check_write_limits-ok h = ground arith

    -- A write that returns has kept the record and the store within the limits that are set; 0 is
    -- no limit.
    pub write-WithinLimits :
        (w : WriteDraw)
        → (write l w r d).0 ≡ ok r.id
        → ((l.max_record_bytes ≡ 0) ⊎ (c.encoded_size r ≤ l.max_record_bytes))
          × ((l.max_store_bytes ≡ 0) ⊎ (total_size (write l w r d).1.records ≤ l.max_store_bytes))
    write-WithinLimits w returned = elim (write-cases w) [
      | inl (allowed, ran) ↦
          let (record_fits, store_fits) = check_write_limits-ok allowed in
          rw ran (
            record_fits,
            elim store_fits [
              | inl free ↦ inl free
              | inr fits ↦ inr (
                  rw (records-run_steps w r d)
                    (omega (arith, total_size-write_record_file-le r d, fits)))
            ],
          )
      | inr (e, refused, raised) ↦ absurd (ground (arith, raised, returned))
    ]

    -- Whether a limit would be passed; 0 is no limit.
    abbrev pub Passes : ℕ → ℕ → Type 0
    Passes size limit = (limit ≢ 0) × (limit < size)

    -- What the limits refuse, and how: a record by its own size, or else by that of the whole store.
    abbrev pub OverLimit : Error → Type 0
    OverLimit e =
        let total = total_size d.records + c.encoded_size r in
        (Passes (c.encoded_size r) l.max_record_bytes
          × (e ≡ storage_limit "storage.max_record_bytes" l.max_record_bytes (c.encoded_size r)))
        ⊎ (((l.max_record_bytes ≡ 0) ⊎ (c.encoded_size r ≤ l.max_record_bytes))
            × Passes total l.max_store_bytes
            × (e ≡ storage_limit "storage.max_store_bytes" l.max_store_bytes total))

    check_write_limits-err :
        (e : Error) → (check_write_limits l d.records (c.encoded_size r) ≡ err e) ↔ OverLimit e
    unfolding check_write_limits
    check_write_limits-err e = (λ p. ground (arith, p), λ p. ground (arith, p))

    -- A write raises exactly where a limit that is set would be passed: the error of the record's limit
    -- where the record is too large, and else that of the store's limit where the total would be. It
    -- raises that error and no other, and the disk is then as it was.
    pub write_refused :
        (w : WriteDraw) (e : Error)
        → (((write l w r d).0 ≡ err e) ↔ OverLimit e) × ((write l w r d ≡ (err e, d)) ↔ OverLimit e)
    write_refused w e = elim (write-cases w) [
      | inl (allowed, ran) ↦
          let none_refused : OverLimit e
              → check_write_limits l d.records (c.encoded_size r) ≡ err e =
            (check_write_limits-err e).1 in
          (
            (
              λ p. absurd (ground (arith, p, ran)),
              λ q. absurd (ground (arith, none_refused q, allowed)),
            ),
            (
              λ p. absurd (ground (arith, p, ran)),
              λ q. absurd (ground (arith, none_refused q, allowed)),
            ),
          )
      | inr (x, refused, raised) ↦
          let (to, from) = check_write_limits-err e in
          let met : x ≡ e → OverLimit e = λ same. to (refused ∙ ap err same) in
          let same : OverLimit e → x ≡ e = λ q. ground (arith, refused, from q) in
          (
            (λ p. met (ground (arith, p, raised)), λ q. ap (λ y. y.0) raised ∙ ap err (same q)),
            (λ p. met (ground (arith, p, raised)), λ q. raised ∙ ap (λ y. (err y, d)) (same q)),
          )
    ]
