-- ===== src/Index/Master/Frame.antt =====
-- What `index_record` and `mark_superseded` leave of the index, where other lemmas need it.
use embers_diaries.Prelude.{
  String, Bool, true, false, none, List, [], ◌∷◌, ◌≡◌, refl, ◌∙◌, arith, ◌==◌, member, member-add,
  select, add, eq_iff, eq_refl, Bool-cases, inl, inr,
}
use embers_diaries.Dict
use embers_diaries.Dict.{Dict}
use embers_diaries.Index.Master.{
  MasterIndex, Meta, TextSet, link_version, index_record, add_at, set_at, get_namespace_ids,
  is_superseded,
}

module _ (id : String) (m : Meta) (x : MasterIndex) where
  pub records-index_record : (index_record id m x).records ≡ Dict.put x.records id m
  unfolding index_record link_version
  records-index_record = ground arith

  pub superseded-index_record : (index_record id m x).superseded ≡ x.superseded
  unfolding index_record link_version
  superseded-index_record = ground arith

  pub deprecated-index_record : (index_record id m x).deprecated ≡ x.deprecated
  unfolding index_record link_version
  deprecated-index_record = ground arith

  pub supersedes-index_record : (index_record id m x).supersedes ≡ x.supersedes
  unfolding index_record link_version
  supersedes-index_record = ground arith

  pub namespaces-index_record :
      (index_record id m x).namespaces ≡ add_at x.namespaces m.namespace id
  unfolding index_record link_version
  namespaces-index_record = ground arith

member-select :
    (test : String → Bool) (a : String) (xs : List String)
    → member a xs ≡ true
    → test a ≡ true
    → member a (select test xs) ≡ true
member-select test a [] m p = absurd (ground (arith, m))
member-select test a (x ∷ xs) m p = elim (Bool-cases (x == a)) [
  | inl e ↦ rw ((eq_iff x a).0 e, p) (ground (arith, eq_refl a))
  | inr e ↦
      let rest = member-select test a xs (ground (arith, m, e)) p in
      elim (Bool-cases (test x)) [ inl b ↦ rw b (ground (arith, rest)) | inr b ↦ rw b rest ]
]

-- An id in a namespace that nothing supersedes is listed there, deprecated or not.
pub listed-get_namespace_ids :
    (x : MasterIndex) (id namespace : String)
    → member id (set_at x.namespaces namespace) ≡ true
    → Dict.get x.superseded id ≡ none
    → member id (get_namespace_ids x namespace true false) ≡ true
unfolding get_namespace_ids is_superseded
listed-get_namespace_ids x id namespace m e =
    member-select _ id (set_at x.namespaces namespace) m (rw e refl)

pub set_at-add_at : (d : Dict TextSet) (k a : String) → member a (set_at (add_at d k a) k) ≡ true
unfolding set_at add_at
set_at-add_at d k a =
    rw (Dict.get-put_self d k (add a (set_at d k)))
      (member-add a a (set_at d k) ∙ ground (arith, eq_refl a))
