-- ===== src/Database/Listing/Namespaces.antt =====
-- `_all_namespaces` (embers/db.py).
use embers_diaries.Prelude.{
  String, true, none, some, List, [], ◌≡◌, sym, ◌∙◌, arith, member, member-add, add, inl, inr,
  eq_refl, ap,
}
use embers_diaries.Dict
use embers_diaries.Core.Record.{EmberRecord, Hashing}
use embers_diaries.Core.Result.{Result, Result-cases, ok}
use embers_diaries.Storage
use embers_diaries.Storage.{Disk}
use embers_diaries.Storage.Reads.{read-stored}
use embers_diaries.Engine.Reader.{◌>>=◌}
use embers_diaries.Database.Listing.{all_namespaces, with_namespace}
use embers_diaries.Database.Listing.Complete.{Body, fold_result_done, All-member, All-tt}

module _ ⦃h : Hashing⦄ (d : Disk) where
  abbrev HasNamespace : String → List String → Type 0
  HasNamespace id namespaces =
      (r : EmberRecord) → Storage.read id d ≡ ok (some r) → member r.namespace namespaces ≡ true

  abbrev read_namespace : String → List String → Result (List String)
  read_namespace id namespaces = do found ← Storage.read id d; ok (with_namespace found namespaces)

  abbrev Extends : List String → List String → Type 0
  Extends xs ys = (a : String) → member a xs ≡ true → member a ys ≡ true

  namespaces-Body :
      Body read_namespace (λ id. Unit {0}) (λ namespaces. Unit {0}) HasNamespace Extends
  namespaces-Body = record {
    keeps = λ id s t u v p. reads id s t p;
    still = λ s a m. m;
    further = λ s t u f g a m. g a (f a m);
    stays = λ id s t grows has r p. grows r.namespace (has r p);
  }
    where
      reads :
          (id : String) (s t : List String)
          → read_namespace id s ≡ ok t
          → Unit {0} × HasNamespace id t × Extends s t
      reads id s t p = elim (Result-cases (Storage.read id d)) [
        | inr (e, q) ↦ absurd (ground (arith, rw q at p))
        | inl (none, q) ↦
            let same : s ≡ t = ground (arith, rw q at p) in
            (tt, (λ r f. absurd (ground (arith, q, f))), λ a m. ap (member a) (sym same) ∙ m)
        | inl (some r, q) ↦
            let same : add r.namespace s ≡ t = ground (arith, rw q at p) in
            (
              tt,
              (λ r' f.
                  let it : r ≡ r' = ground (arith, q, f) in
                  ap (member r'.namespace) (sym same)
                  ∙ ap (λ (x : EmberRecord). member r'.namespace (add x.namespace s)) it
                  ∙ member-add r'.namespace r'.namespace s
                  ∙ ground (arith, eq_refl r'.namespace)),
              λ a m. ap (member a) (sym same) ∙ member-add a r.namespace s ∙ ground (arith, m),
            )
      ]

  -- The namespace of every stored record is met.
  pub member-all_namespaces :
      (namespaces : List String) (id : String) (r : EmberRecord)
      → all_namespaces d ≡ ok namespaces
      → Storage.read id d ≡ ok (some r)
      → member r.namespace namespaces ≡ true
  unfolding all_namespaces
  member-all_namespaces namespaces id r p f =
      let (u, dones, grows) =
        fold_result_done read_namespace (λ k. Unit {0}) (λ l. Unit {0}) HasNamespace Extends
          namespaces-Body (Storage.all_ids d) [] namespaces p (All-tt (Storage.all_ids d)) tt in
      All-member (λ k. HasNamespace k namespaces) (Storage.all_ids d) id dones
        (Dict.member-keys d.records id ∙ ground (arith, read-stored id d f)) r f
