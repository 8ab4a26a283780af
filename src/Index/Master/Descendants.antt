-- ===== src/Index/Master/Descendants.antt =====
-- `MasterIndex.get_version_descendants` (embers/index/master.py): the sweep over the version graph.
use embers_diaries.Prelude.{
  ℕ, ◌+◌, ◌-◌, ◌≤◌, ◌<◌, String, true, false, List, [], ◌∷◌, ◌≡◌, ◌≢◌, ◌↔◌, refl, ap, sym, subst,
  arith, ◌==◌, eq_iff, eq_refl, ◌||◌, ◌⊎◌, inl, inr, length, member, member-append, while_inv,
  NoRepeats, IsWithin, pigeonhole, Bool-cases,
}
use embers_diaries.Dict
use embers_diaries.Dict.{Dict}
use embers_diaries.Index.Master.{
  MasterIndex, TextSet, set_at, Sweep, visit_children, has_work, sweep_step, links_of, sweep_from,
  sweep_fuel, sweep, get_version_descendants,
}

-- Later versions: the record itself, and every child of one that is reached.
pub data Reaches (children : Dict TextSet) (first : String) : String → Type 0 where
  self : Reaches children first first
  child :
      {b c : String}
      → Reaches children first b
      → member c (set_at children b) ≡ true
      → Reaches children first c

set_at-links_of :
    (d : Dict TextSet) (k c : String) → member c (set_at d k) ≡ true → member c (links_of d) ≡ true
unfolding set_at links_of Dict.get
set_at-links_of [] k c h = ground arith
set_at-links_of ((j, cs) ∷ d) k c h =
    ground (arith, member-append c cs (links_of d), set_at-links_of d k c)

record Grown (cs : List String) (s t : Sweep) : Type 0 where
  covers : (c : String) → member c cs ≡ true → member c t.seen ≡ true
  keeps_seen : (c : String) → member c s.seen ≡ true → member c t.seen ≡ true
  keeps_stack : (c : String) → member c s.stack ≡ true → member c t.stack ≡ true
  fresh :
      (c : String) → member c t.seen ≡ true → (member c s.seen ≡ true) ⊎ (member c t.stack ≡ true)
  sizes : length t.seen + length s.stack ≡ length t.stack + length s.seen

module _ (children : Dict TextSet) (first : String) where
  record IsSweep (s : Sweep) : Type 0 where
    distinct : NoRepeats s.seen
    within : IsWithin s.seen (first ∷ links_of children)
    same : (c : String) → member c s.seen ≡ ((first == c) || member c s.out)
    no_first : member first s.out ≡ false
    on_stack : IsWithin s.stack s.seen
    reach : (c : String) → member c s.seen ≡ true → Reaches children first c

  abbrev CanVisit : List String → Type 0
  CanVisit cs =
      (c : String)
      → member c cs ≡ true
      → (member c (links_of children) ≡ true) × Reaches children first c

  abbrev extended : String → Sweep → Sweep
  extended c s = record { stack = c ∷ s.stack; seen = c ∷ s.seen; out = c ∷ s.out }

  extended-IsSweep :
      (c : String) (s : Sweep)
      → member c (links_of children) ≡ true
      → Reaches children first c
      → member c s.seen ≡ false
      → IsSweep s
      → IsSweep (extended c s)
  extended-IsSweep c s link r new h = record {
    distinct = (new, h.distinct);
    within = λ a m. ground (arith, h.within a, eq_iff c a);
    same = λ a. ground (arith, h.same a);
    no_first = ground (arith, h.same c, h.no_first, eq_iff c first, eq_iff first c);
    on_stack = λ a m. ground (arith, h.on_stack a);
    reach = λ a m. elim (Bool-cases (c == a)) [
      | inl e ↦ subst (Reaches children first) ((eq_iff c a).0 e) r
      | inr e ↦ h.reach a (ground arith)
    ];
  }

  visit_children-IsSweep :
      (cs : List String) (s : Sweep) → CanVisit cs → IsSweep s → IsSweep (visit_children cs s)
  unfolding visit_children
  visit_children-IsSweep [] s can h = h
  visit_children-IsSweep (c ∷ cs) s can h = elim (Bool-cases (member c s.seen)) [
    | inl old ↦ rw old (visit_children-IsSweep cs s (λ a m. can a (ground arith)) h)
    | inr new ↦
        let (link, r) = can c (ground (arith, eq_refl c)) in
        rw new (
          visit_children-IsSweep cs (extended c s) (λ a m. can a (ground arith))
            (extended-IsSweep c s link r new h))
  ]

visit_children-Grown : (cs : List String) (s : Sweep) → Grown cs s (visit_children cs s)
unfolding visit_children
visit_children-Grown [] s = record {
  covers = λ c m. ground arith;
  keeps_seen = λ c m. m;
  keeps_stack = λ c m. m;
  fresh = λ c m. inl m;
  sizes = omega arith;
}
visit_children-Grown (c ∷ cs) s = elim (Bool-cases (member c s.seen)) [
  | inl old ↦
      let g = visit_children-Grown cs s in
      rw old (record {
        covers = λ a m. ground (arith, g.covers a, g.keeps_seen a, eq_iff c a);
        keeps_seen = g.keeps_seen;
        keeps_stack = g.keeps_stack;
        fresh = g.fresh;
        sizes = g.sizes;
      })
  | inr new ↦
      let t : Sweep = record { stack = c ∷ s.stack; seen = c ∷ s.seen; out = c ∷ s.out } in
      let g = visit_children-Grown cs t in
      rw new (record {
        covers = λ a m. ground (arith, g.covers a, g.keeps_seen a, eq_iff c a);
        keeps_seen = λ a m. g.keeps_seen a (ground arith);
        keeps_stack = λ a m. g.keeps_stack a (ground arith);
        fresh = λ a m. ground (arith, g.fresh a m, g.keeps_stack a);
        sizes = omega (arith, g.sizes);
      })
]

module _ (children : Dict TextSet) (first : String) where
  abbrev AllClosed : Sweep → Type 0
  AllClosed s =
      (n : String)
      → member n s.seen ≡ true
      → (member n s.stack ≡ true)
        ⊎ ((c : String) → member c (set_at children n) ≡ true → member c s.seen ≡ true)

  abbrev IsGood : Sweep → Type 0
  IsGood s = IsSweep children first s × AllClosed s

  abbrev left : Sweep → ℕ
  left s = length (links_of children) + 1 + length s.stack - length s.seen

  popped-IsSweep :
      (n : String) (ns : List String) (s : Sweep)
      → s.stack ≡ n ∷ ns
      → IsSweep children first s
      → IsSweep children first (record s { stack = ns })
  popped-IsSweep n ns s e h = record {
    distinct = h.distinct;
    within = h.within;
    same = h.same;
    no_first = h.no_first;
    on_stack = λ a m. h.on_stack a (rw e (ground arith));
    reach = h.reach;
  }

  seen_bound :
      (s : Sweep) → IsSweep children first s → length s.seen ≤ length (links_of children) + 1
  seen_bound s h = omega (arith, pigeonhole s.seen (first ∷ links_of children) h.distinct h.within)

  visited-AllClosed :
      (n : String) (ns : List String) (s : Sweep)
      → s.stack ≡ n ∷ ns
      → AllClosed s
      → AllClosed (visit_children (set_at children n) (record s { stack = ns }))
  visited-AllClosed n ns s e closed m seen =
      let g = visit_children-Grown (set_at children n) (record s { stack = ns }) in
      elim (g.fresh m seen) [
        | inr waiting ↦ inl waiting
        | inl old ↦ elim (closed m old) [
          | inr done ↦ inr (λ c k. g.keeps_seen c (done c k))
          | inl on ↦ elim (Bool-cases (n == m)) [
            | inl same ↦ inr (λ c k.
                g.covers c
                  (subst (λ x. member c (set_at children x) ≡ true) (sym ((eq_iff n m).0 same)) k))
            | inr other ↦ inl (g.keeps_stack m (ground (arith, ap (member m) e)))
          ]
        ]
      ]

  sweep_step-IsGood :
      (s : Sweep)
      → IsGood s
      → has_work s ≡ true
      → IsGood (sweep_step children s) × (left (sweep_step children s) < left s)
  unfolding has_work sweep_step
  sweep_step-IsGood s (h, closed) work = by_stack s.stack refl
    where
      by_stack :
          (st : List String)
          → s.stack ≡ st
          → IsGood (sweep_step children s) × (left (sweep_step children s) < left s)
      by_stack [] e = absurd (ground (arith, e))
      by_stack (n ∷ ns) e =
          let s0 : Sweep = record s { stack = ns } in
          let g = visit_children-Grown (set_at children n) s0 in
          let kept =
            visit_children-IsSweep children first (set_at children n) s0
              (λ c m. (
                set_at-links_of children n c m,
                child (h.reach n (h.on_stack n (rw e (ground (arith, eq_refl n))))) m,
              ))
              (popped-IsSweep n ns s e h) in
          rw (e, sweep_step)
            (
              (kept, visited-AllClosed n ns s e closed),
              omega (arith, g.sizes, seen_bound s h, seen_bound _ kept, ap length e),
            )

  start-IsGood : IsGood (sweep_from first)
  start-IsGood = (
    record {
      distinct = (refl, tt);
      within = λ a m. ground arith;
      same = λ c. ground arith;
      no_first = refl;
      on_stack = λ a m. m;
      reach = λ c m. subst (Reaches children first) ((eq_iff first c).0 (ground arith)) self;
    },
    λ n m. inl m,
  )

  sweep-IsGood : IsGood (sweep children first) × (has_work (sweep children first) ≡ false)
  unfolding sweep
  sweep-IsGood =
      while_inv has_work (sweep_step children) IsGood left sweep_step-IsGood (sweep_fuel children)
        (sweep_from first) (omega arith) start-IsGood

  no_work : (s : Sweep) (n : String) → has_work s ≡ false → member n s.stack ≡ true → ⊥
  unfolding has_work
  no_work s n h m = ground arith

  seen_complete :
      {c : String} → Reaches children first c → member c (sweep children first).seen ≡ true
  seen_complete self = let (h, _) = sweep-IsGood.0 in ground (arith, h.same first, eq_refl first)
  seen_complete (child {b} {c} r m) =
      let (good, halt) = sweep-IsGood in
      elim (good.1 b (seen_complete r)) [
        | inl on ↦ absurd (no_work (sweep children first) b halt on)
        | inr done ↦ done c m
      ]

-- The sweep collects exactly the later versions of a record, the record itself left out: all that
-- its children, their children and so on reach, whatever the shape of the graph.
pub member-get_version_descendants :
    (x : MasterIndex) (id c : String)
    → (member c (get_version_descendants x id) ≡ true)
      ↔ (Reaches x.version_children id c × (c ≢ id))
unfolding get_version_descendants
member-get_version_descendants x id c =
    let children = x.version_children in
    let (h, _) = (sweep-IsGood children id).0 in
    (
      λ m. (
        h.reach c (ground (arith, h.same c)),
        λ e. cc (h.no_first, ap (λ a. member a (sweep children id).out) e),
      ),
      λ (r, ne).
          ground
            (arith, h.same c, seen_complete children id r, eq_iff id c, λ (e : id ≡ c). ne (sym e)),
    )
