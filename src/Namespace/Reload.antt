-- ===== src/Namespace/Reload.antt =====
-- The registry file of the namespaces, read again (embers/namespace/manager.py).
use embers_diaries.Prelude.{
  String, true, false, Option, none, some, [], ◌∷◌, ◌++◌, ◌≡◌, refl, sym, ◌∙◌, subst, arith, member,
  NoRepeats, append-nil, append_assoc, ◌==◌, eq_iff, inl, inr, Bool-cases, ◌||◌,
}
use embers_diaries.Dict
use embers_diaries.Dict.{Dict}
use embers_diaries.Core.Types.{AccessLevel}
use embers_diaries.Core.Record.{Time, Fields}
use embers_diaries.Core.Result.{ok}
use embers_diaries.Database.Fields.{IsoFormat, Shows, get_field, text_at, required_text}
use embers_diaries.Database.Session.RoundTrip.{texts_in-of_texts, time_at-shown}
use embers_diaries.Namespace.{
  NamespaceInfo, level_value, level_of, of_hint, hint_from, info_dict, info_from, info_dicts,
  load_each, callers_from,
}

level_of-level_value : (l : AccessLevel) → level_of (level_value l) ≡ ok l
unfolding level_of level_value
level_of-level_value AccessLevel.public = refl
level_of-level_value AccessLevel.private = refl
level_of-level_value AccessLevel.internal = refl

hint_from-of_hint : (o : Option Fields) → hint_from (some (of_hint o)) ≡ ok o
unfolding hint_from
hint_from-of_hint none = refl
hint_from-of_hint (some d) = refl

put-absent {ℓ} :
    {V : Type ℓ} (d : Dict V) (k : String) (v : V)
    → member k (Dict.keys d) ≡ false
    → Dict.put d k v ≡ d ++ (k, v) ∷ []
unfolding Dict.put
put-absent [] k v h = refl
put-absent ((j, w) ∷ d) k v h = ground (arith, h, eq_iff j k, eq_iff k j, put-absent d k v)

module _ ⦃i : IsoFormat⦄ where
  pub info_from-info_dict :
      (now : Time) (ns : NamespaceInfo) → Shows ns.created_at → info_from now (info_dict ns) ≡ ok ns
  unfolding info_from info_dict callers_from required_text text_at get_field
  info_from-info_dict now ns shown =
      let d = info_dict ns in
      rw
        (
          level_of-level_value ns.access_level,
          hint_from-of_hint ns.schema_hint,
          time_at-shown d "created_at" (some now) ns.created_at refl shown,
          texts_in-of_texts ns.allowed_writers,
          texts_in-of_texts ns.allowed_readers,
        )
        refl

  -- The times of the namespaces are printed so that they can be read.
  abbrev pub AllShow : Dict NamespaceInfo → Type 0
  AllShow [] = Unit
  AllShow ((k, ns) ∷ d) = Shows ns.created_at × AllShow d

  pub AllShow-put :
      (d : Dict NamespaceInfo) (k : String) (ns : NamespaceInfo)
      → Shows ns.created_at
      → AllShow d
      → AllShow (Dict.put d k ns)
  unfolding Dict.put
  AllShow-put [] k ns s h = (s, tt)
  AllShow-put ((j, x) ∷ d) k ns s h = elim (Bool-cases (j == k)) [
    | inl e ↦ rw e (s, h.1)
    | inr e ↦ rw e (h.0, AllShow-put d k ns s h.1)
  ]

  pub AllShow-remove : (d : Dict NamespaceInfo) (k : String) → AllShow d → AllShow (Dict.remove d k)
  unfolding Dict.remove
  AllShow-remove [] k h = h
  AllShow-remove ((j, x) ∷ d) k h = elim (Bool-cases (j == k)) [
    | inl e ↦ rw e (AllShow-remove d k h.1)
    | inr e ↦ rw e (h.0, AllShow-remove d k h.1)
  ]

  pub Shows-get :
      (d : Dict NamespaceInfo) (k : String) (ns : NamespaceInfo)
      → AllShow d
      → Dict.get d k ≡ some ns
      → Shows ns.created_at
  unfolding Dict.get
  Shows-get [] k ns h p = absurd (ground (arith, p))
  Shows-get ((j, x) ∷ d) k ns h p = elim (Bool-cases (j == k)) [
    | inl e ↦
        let same : x ≡ ns = ground (arith, p, e) in
        subst (λ (y : NamespaceInfo). Shows y.created_at) same h.0
    | inr e ↦ Shows-get d k ns h.1 (ground (arith, p, e))
  ]

  -- No key of the first is one of the second, which has none twice.
  abbrev Apart : Dict NamespaceInfo → Dict NamespaceInfo → Type 0
  Apart loaded d =
      (k : String) → member k (Dict.keys d) ≡ true → member k (Dict.keys loaded) ≡ false

  keys-snoc :
      (d : Dict NamespaceInfo) (k j : String) (ns : NamespaceInfo)
      → member j (Dict.keys (d ++ (k, ns) ∷ [])) ≡ (member j (Dict.keys d) || (k == j))
  keys-snoc [] k j ns = ground (arith, eq_iff k j)
  keys-snoc ((i', x) ∷ d) k j ns = ground (arith, keys-snoc d k j ns)

  pub load_each-info_dicts :
      (now : Time) (d loaded : Dict NamespaceInfo)
      → NoRepeats (Dict.keys d)
      → Apart loaded d
      → AllShow d
      → load_each now (info_dicts d) loaded ≡ loaded ++ d
  unfolding load_each info_dicts
  load_each-info_dicts now [] loaded once apart shown = sym (append-nil loaded)
  load_each-info_dicts now ((k, ns) ∷ d) loaded (new, once) apart shown =
      let fresh : member k (Dict.keys loaded) ≡ false = apart k (ground (arith, eq_iff k k)) in
      let next : Apart (loaded ++ (k, ns) ∷ []) d =
        λ j h. ground (arith, keys-snoc loaded k j ns, apart j, h, new, eq_iff k j, eq_iff j k) in
      rw (load_each, info_dicts, info_from-info_dict now ns shown.0, put-absent loaded k ns fresh)
        (load_each-info_dicts now d (loaded ++ (k, ns) ∷ []) once next shown.1
          ∙ append_assoc loaded ((k, ns) ∷ []) d)

pub NoRepeats-remove {ℓ} :
    {V : Type ℓ} (d : Dict V) (k : String)
    → NoRepeats (Dict.keys d)
    → NoRepeats (Dict.keys (Dict.remove d k))
unfolding Dict.remove
NoRepeats-remove [] k h = h
NoRepeats-remove ((j, x) ∷ d) k (new, h) = elim (Bool-cases (j == k)) [
  | inl e ↦ rw e (NoRepeats-remove d k h)
  | inr e ↦ rw e (
    ground (
      arith,
      new,
      Dict.member-keys (Dict.remove d k) j,
      Dict.member-keys d j,
      Dict.get-remove d k j,
    ),
    NoRepeats-remove d k h,
  )
]
