-- ===== src/Namespace/Registry.antt =====
-- Runs of calls on the registry of namespaces (embers/namespace/manager.py).
use embers_diaries.Prelude.{
  String, Bool, true, Option, none, some, List, [], ◌∷◌, ◌≡◌, refl, ◌==◌, member, arith, eq_iff,
  NoRepeats, NoRepeats-snoc, Option-cases, Bool-cases, inl, inr, ◌∙◌, subst, ◌⊎◌, ap, sym,
}
use embers_diaries.Dict
use embers_diaries.Database.Fields.{IsoFormat, Shows}
use embers_diaries.Namespace.Reload.{
  AllShow, AllShow-put, AllShow-remove, Shows-get, NoRepeats-remove, load_each-info_dicts,
}
use embers_diaries.Dict.{Dict}
use embers_diaries.Core.Types.{AccessLevel}
use embers_diaries.Core.Record.{Time, Fields}
use embers_diaries.Namespace.{
  NamespaceInfo, Manager, load, create, delete, remove_first, grant_read, grant_write, revoke_read,
  revoke_write, edit, change, info_dicts,
}
use embers_diaries.Namespace.Access.{IsDistinct}

-- A call that changes the registry.
pub data Op : Type 0 where
  create_op : String → String → AccessLevel → String → Option Fields → Time → Op
  delete_op : String → Op
  grant_read_op grant_write_op revoke_read_op revoke_write_op : String → String → Op

unfoldable pub apply_op : ⦃i : IsoFormat⦄ → Op → Manager → Manager
apply_op (create_op name description level owner hint now) m =
    (create name description level owner hint now m).1
apply_op (delete_op name) m = (delete name m).1
apply_op (grant_read_op name caller) m = grant_read name caller m
apply_op (grant_write_op name caller) m = grant_write name caller m
apply_op (revoke_read_op name caller) m = revoke_read name caller m
apply_op (revoke_write_op name caller) m = revoke_write name caller m

unfoldable pub run_ops : ⦃i : IsoFormat⦄ → List Op → Manager → Manager
run_ops [] m = m
run_ops (op ∷ ops) m = run_ops ops (apply_op op m)

-- A time that a call draws must be printed so that it can be read.
abbrev pub OpShows : ⦃i : IsoFormat⦄ → Op → Type 0
OpShows (create_op name description level owner hint now) = Shows now
OpShows (delete_op name) = Unit
OpShows (grant_read_op name caller) = Unit
OpShows (grant_write_op name caller) = Unit
OpShows (revoke_read_op name caller) = Unit
OpShows (revoke_write_op name caller) = Unit

abbrev pub OpsShow : ⦃i : IsoFormat⦄ → List Op → Type 0
OpsShow [] = Unit
OpsShow (op ∷ ops) = OpShows op × OpsShow ops

-- What the registry file says: that there are no namespaces, if it is missing, or all of them.
abbrev Saved : ⦃i : IsoFormat⦄ → Manager → Type 0
Saved m =
    ((m.namespaces ≡ []) × (m.registry ≡ none)) ⊎ (m.registry ≡ some (info_dicts m.namespaces))

pub record IsWellFormed ⦃i : IsoFormat⦄ (m : Manager) : Type 0 where
  pub named : (k : String) (ns : NamespaceInfo) → Dict.get m.namespaces k ≡ some ns → ns.name ≡ k
  pub distinct : IsDistinct m
  pub once : NoRepeats (Dict.keys m.namespaces)
  pub shown : AllShow m.namespaces
  pub saved : Saved m

member-remove_first-le :
    (a b : String) (xs : List String) → member b (remove_first a xs) ≡ true → member b xs ≡ true
unfolding remove_first
member-remove_first-le a b [] h = h
member-remove_first-le a b (x ∷ xs) h = ground (arith, member-remove_first-le a b xs)

remove_first-NoRepeats :
    (a : String) (xs : List String) → NoRepeats xs → NoRepeats (remove_first a xs)
unfolding remove_first
remove_first-NoRepeats a [] h = h
remove_first-NoRepeats a (x ∷ xs) (new, h) = elim (Bool-cases (x == a)) [
  | inl e ↦ rw e h
  | inr e ↦ rw e (ground (arith, new, member-remove_first-le a x xs), remove_first-NoRepeats a xs h)
]

put-IsWellFormed :
    ⦃i : IsoFormat⦄
    → (k : String) (ns : NamespaceInfo) (m : Manager) → ns.name ≡ k
    → NoRepeats ns.allowed_writers
    → NoRepeats ns.allowed_readers
    → Shows ns.created_at
    → IsWellFormed m
    → IsWellFormed (change (Dict.put m.namespaces k ns))
put-IsWellFormed k ns m named w r t h = record {
  named = λ j n p. elim (Bool-cases (k == j)) [
    | inl e ↦ ground (arith, p, e, Dict.get-put m.namespaces k j ns, eq_iff k j, named)
    | inr e ↦ h.named j n (ground (arith, p, e, Dict.get-put m.namespaces k j ns))
  ];
  distinct = λ j n p. elim (Bool-cases (k == j)) [
    | inl e ↦
        let same : ns ≡ n = ground (arith, p, e, Dict.get-put m.namespaces k j ns) in
        subst (λ (x : NamespaceInfo). NoRepeats x.allowed_writers × NoRepeats x.allowed_readers)
          same (w, r)
    | inr e ↦ h.distinct j n (ground (arith, p, e, Dict.get-put m.namespaces k j ns))
  ];
  once = Dict.NoRepeats-put m.namespaces k ns h.once;
  shown = AllShow-put m.namespaces k ns t h.shown;
  saved = inr refl;
}

edit-IsWellFormed :
    ⦃i : IsoFormat⦄
    → (k : String) (test : NamespaceInfo → Bool) (f : NamespaceInfo → NamespaceInfo) (m : Manager)
    → ((ns : NamespaceInfo)
        → test ns ≡ true
        → NoRepeats ns.allowed_writers
        → NoRepeats ns.allowed_readers
        → ((f ns).name ≡ ns.name)
          × ((f ns).created_at ≡ ns.created_at)
          × NoRepeats (f ns).allowed_writers
          × NoRepeats (f ns).allowed_readers)
    → IsWellFormed m
    → IsWellFormed (edit k test f m)
unfolding edit
edit-IsWellFormed k test f m keeps h = elim (Option-cases (Dict.get m.namespaces k)) [
  | inl p ↦ rw (edit, p) h
  | inr (ns, p) ↦ elim (Bool-cases (test ns)) [
    | inr t ↦ rw (edit, p, t) h
    | inl t ↦
        let (name, made, w, r) = keeps ns t (h.distinct k ns p).0 (h.distinct k ns p).1 in
        rw (edit, p, t)
          (put-IsWellFormed k (f ns) m (name ∙ h.named k ns p) w r
            (subst (λ x. Shows x) (sym made) (Shows-get m.namespaces k ns h.shown p)) h)
  ]
]

remove-IsWellFormed :
    ⦃i : IsoFormat⦄
    → (k : String) (m : Manager) → IsWellFormed m
    → IsWellFormed (change (Dict.remove m.namespaces k))
remove-IsWellFormed k m h = record {
  named = λ j n p. h.named j n (ground (arith, p, Dict.get-remove m.namespaces k j));
  distinct = λ j n p. h.distinct j n (ground (arith, p, Dict.get-remove m.namespaces k j));
  once = NoRepeats-remove m.namespaces k h.once;
  shown = AllShow-remove m.namespaces k h.shown;
  saved = inr refl;
}

apply_op-IsWellFormed :
    ⦃i : IsoFormat⦄
    → (op : Op) (m : Manager) → OpShows op
    → IsWellFormed m
    → IsWellFormed (apply_op op m)
unfolding apply_op create delete grant_read grant_write revoke_read revoke_write
apply_op-IsWellFormed (create_op name d level owner hint now) m t h =
    elim (Bool-cases (Dict.contains m.namespaces name)) [
      | inl e ↦ rw (apply_op, create, e) h
      | inr e ↦ rw (apply_op, create, e) (put-IsWellFormed name _ m refl tt tt t h)
    ]
apply_op-IsWellFormed (delete_op name) m t h = elim (Bool-cases (Dict.contains m.namespaces name)) [
  | inl e ↦ rw (apply_op, delete, e) (remove-IsWellFormed name m h)
  | inr e ↦ rw (apply_op, delete, e) h
]
apply_op-IsWellFormed (grant_read_op name caller) m t h =
    edit-IsWellFormed name _ _ m
      (λ ns t w r. (refl, refl, w, NoRepeats-snoc ns.allowed_readers caller r (ground (arith, t))))
      h
apply_op-IsWellFormed (grant_write_op name caller) m t h =
    edit-IsWellFormed name _ _ m
      (λ ns t w r. (refl, refl, NoRepeats-snoc ns.allowed_writers caller w (ground (arith, t)), r))
      h
apply_op-IsWellFormed (revoke_read_op name caller) m t h =
    edit-IsWellFormed name _ _ m
      (λ ns t w r. (refl, refl, w, remove_first-NoRepeats caller ns.allowed_readers r)) h
apply_op-IsWellFormed (revoke_write_op name caller) m t h =
    edit-IsWellFormed name _ _ m
      (λ ns t w r. (refl, refl, remove_first-NoRepeats caller ns.allowed_writers w, r)) h

-- A restart on the registry file of a well-formed registry reads back what was in memory.
load-IsWellFormed :
    ⦃i : IsoFormat⦄ → (m : Manager) (now : Time) → IsWellFormed m → load now m.registry ≡ m
load-IsWellFormed m now h = elim h.saved [
  | inl (e, f) ↦ ap (load now) f ∙ (λ j. record { namespaces = sym e j; registry = sym f j })
  | inr f ↦ ap (load now) f ∙ (λ j. record {
    namespaces = load_each-info_dicts now m.namespaces [] h.once (λ k p. refl) h.shown j;
    registry = sym f j;
  })
]

-- From a well-formed registry, such as the empty one, every run of calls leads to a well-formed one:
-- each namespace stands under its own name, and no list holds a caller twice. A restart, which reads
-- the namespaces from the dicts that are in the registry file, gives what was in memory. The times that
-- the calls draw are printed so that they can be read.
pub run_ops-IsWellFormed :
    ⦃i : IsoFormat⦄
    → (ops : List Op) (m : Manager) → OpsShow ops
    → IsWellFormed m
    → IsWellFormed (run_ops ops m)
      × ((now : Time) → load now (run_ops ops m).registry ≡ run_ops ops m)
unfolding run_ops
run_ops-IsWellFormed [] m t h = (h, λ now. load-IsWellFormed m now h)
run_ops-IsWellFormed (op ∷ ops) m t h =
    run_ops-IsWellFormed ops (apply_op op m) t.1 (apply_op-IsWellFormed op m t.0 h)

pub empty-IsWellFormed : ⦃i : IsoFormat⦄ → (now : Time) → IsWellFormed (load now none)
empty-IsWellFormed now = record {
  named = λ k ns p. absurd (ground (arith, p, Dict.get-empty {V = NamespaceInfo} k));
  distinct = λ k ns p. absurd (ground (arith, p, Dict.get-empty {V = NamespaceInfo} k));
  once = tt;
  shown = tt;
  saved = inl (refl, refl);
}
