-- ===== src/Namespace/Access.antt =====
-- Grants and revocations of embers/namespace/manager.py, and the access of every caller to every
-- namespace.
use embers_diaries.Prelude.{
  String, Bool, true, false, Option, none, some, List, [], ◌∷◌, ◌++◌, ◌≡◌, refl, ◌==◌, ◌&&◌, ◌||◌,
  if◌then◌else◌, not, member, member-append, map_option, arith, eq_iff, NoRepeats, Option-cases,
  inl, inr, ◌∙◌,
}
use embers_diaries.Dict
use embers_diaries.Database.Fields.{IsoFormat}
use embers_diaries.Namespace.{
  NamespaceInfo, Manager, may_read, may_write, check_read, check_write, remove_first, grant_read,
  grant_write, revoke_read, edit,
}

-- What an edit makes of one entry.
abbrev edited :
    (NamespaceInfo → Bool) → (NamespaceInfo → NamespaceInfo) → NamespaceInfo → NamespaceInfo
edited test f ns = if test ns then f ns else ns

abbrev seen : (NamespaceInfo → Bool) → Option NamespaceInfo → Bool
seen may none = true
seen may (some ns) = may ns

get-edit :
    ⦃i : IsoFormat⦄
    → (namespace k : String) (test : NamespaceInfo → Bool) (f : NamespaceInfo → NamespaceInfo)
      (m : Manager)
    → Dict.get (edit namespace test f m).namespaces k ≡ (
        if namespace == k
        then map_option (edited test f) (Dict.get m.namespaces k)
        else Dict.get m.namespaces k)
unfolding edit
get-edit namespace k test f m = elim (Option-cases (Dict.get m.namespaces namespace)) [
  | inl p ↦ ground (arith, p, eq_iff namespace k)
  | inr (ns, p) ↦
      ground (arith, p, eq_iff namespace k, Dict.get-put m.namespaces namespace k (f ns))
]

member-remove_first :
    (a b : String) (xs : List String)
    → NoRepeats xs
    → member b (remove_first a xs) ≡ (if a == b then false else member b xs)
unfolding remove_first
member-remove_first a b [] h = ground arith
member-remove_first a b (x ∷ xs) (new, h) =
    ground (arith, member-remove_first a b xs h, new, eq_iff x a, eq_iff a b, eq_iff x b)

-- No list of a namespace holds a caller twice.
abbrev pub IsDistinct : Manager → Type 0
IsDistinct m =
    (k : String) (ns : NamespaceInfo)
    → Dict.get m.namespaces k ≡ some ns
    → NoRepeats ns.allowed_writers × NoRepeats ns.allowed_readers

-- How an edit changes an answer that one entry gives.
seen-edit :
    ⦃i : IsoFormat⦄
    → (may may' : NamespaceInfo → Bool) (namespace k : String) (test : NamespaceInfo → Bool)
      (f : NamespaceInfo → NamespaceInfo) (m : Manager)
    → ((ns : NamespaceInfo) → Dict.get m.namespaces k ≡ some ns → may (edited test f ns) ≡ may' ns)
    → seen may (Dict.get (edit namespace test f m).namespaces k) ≡ (
        if namespace == k
        then seen may' (Dict.get m.namespaces k)
        else seen may (Dict.get m.namespaces k))
seen-edit may may' namespace k test f m h =
    rw (get-edit namespace k test f m) (elim (Option-cases (Dict.get m.namespaces k)) [
      | inl p ↦ ground (arith, p)
      | inr (ns, p) ↦ ground (arith, p, h ns p)
    ])

seen-or :
    (may : NamespaceInfo → Bool) (b : Bool) (o : Option NamespaceInfo)
    → seen (λ ns. may ns || b) o ≡ (seen may o || b)
seen-or may b none = refl
seen-or may b (some ns) = refl

abbrev without : String → String → List String → List String
without caller who xs = if caller == who then [] else xs

granted_write :
    ⦃i : IsoFormat⦄
    → (caller who : String) (ns : NamespaceInfo)
    → (may_write
          (edited
            (λ n. not (member caller n.allowed_writers))
            (λ n. record n { allowed_writers = n.allowed_writers ++ caller ∷ [] })
            ns)
          who
        ≡ (may_write ns who || (caller == who)))
      × (may_read
            (edited
              (λ n. not (member caller n.allowed_writers))
              (λ n. record n { allowed_writers = n.allowed_writers ++ caller ∷ [] })
              ns)
            who
          ≡ may_read ns who)
unfolding may_write may_read
granted_write caller who ns = (
  ground (arith, member-append who ns.allowed_writers (caller ∷ []), eq_iff caller who),
  ground arith,
)

granted_read :
    ⦃i : IsoFormat⦄
    → (caller who : String) (ns : NamespaceInfo)
    → (may_read
          (edited
            (λ n. not (member caller n.allowed_readers))
            (λ n. record n { allowed_readers = n.allowed_readers ++ caller ∷ [] })
            ns)
          who
        ≡ (may_read ns who || (caller == who)))
      × (may_write
            (edited
              (λ n. not (member caller n.allowed_readers))
              (λ n. record n { allowed_readers = n.allowed_readers ++ caller ∷ [] })
              ns)
            who
          ≡ may_write ns who)
unfolding may_write may_read
granted_read caller who ns = (
  ground (arith, member-append who ns.allowed_readers (caller ∷ []), eq_iff caller who),
  ground arith,
)

revoked_read :
    ⦃i : IsoFormat⦄
    → (caller who : String) (ns : NamespaceInfo) → NoRepeats ns.allowed_readers
    → may_read
        (edited
          (λ n. member caller n.allowed_readers)
          (λ n. record n { allowed_readers = remove_first caller n.allowed_readers })
          ns)
        who
      ≡ may_read (record ns { allowed_readers = without caller who ns.allowed_readers }) who
unfolding may_read
revoked_read caller who ns h =
    ground (arith, member-remove_first caller who ns.allowed_readers h, eq_iff caller who)

-- A grant of the right to write gives it to that caller in that namespace, and changes no other
-- answer: no other caller's, no other namespace's, and no right to read.
pub check-grant_write :
    ⦃i : IsoFormat⦄
    → (namespace caller other who : String) (m : Manager)
    → (check_write (grant_write namespace caller m) other who
        ≡ (check_write m other who || ((namespace == other) && (caller == who))))
      × (check_read (grant_write namespace caller m) other who ≡ check_read m other who)
unfolding check_write check_read grant_write
check-grant_write namespace caller other who m =
    let write = λ (ns : NamespaceInfo). may_write ns who in
    let read = λ (ns : NamespaceInfo). may_read ns who in
    let o = Dict.get m.namespaces other in
    let new = (caller == who) in
    (
      seen-edit write (λ (ns : NamespaceInfo). write ns || new) namespace other _ _ m
            (λ ns _. (granted_write caller who ns).0)
          ∙ ground (arith, seen-or write new o, eq_iff namespace other),
      seen-edit read read namespace other _ _ m (λ ns _. (granted_write caller who ns).1)
          ∙ ground (arith, eq_iff namespace other),
    )

-- A grant of the right to read gives it to that caller in that namespace, and changes no other
-- answer: no other caller's, no other namespace's, and no right to write.
pub check-grant_read :
    ⦃i : IsoFormat⦄
    → (namespace caller other who : String) (m : Manager)
    → (check_read (grant_read namespace caller m) other who
        ≡ (check_read m other who || ((namespace == other) && (caller == who))))
      × (check_write (grant_read namespace caller m) other who ≡ check_write m other who)
unfolding check_write check_read grant_read
check-grant_read namespace caller other who m =
    let write = λ (ns : NamespaceInfo). may_write ns who in
    let read = λ (ns : NamespaceInfo). may_read ns who in
    let o = Dict.get m.namespaces other in
    let new = (caller == who) in
    (
      seen-edit read (λ (ns : NamespaceInfo). read ns || new) namespace other _ _ m
            (λ ns _. (granted_read caller who ns).0)
          ∙ ground (arith, seen-or read new o, eq_iff namespace other),
      seen-edit write write namespace other _ _ m (λ ns _. (granted_read caller who ns).1)
          ∙ ground (arith, eq_iff namespace other),
    )

-- What a caller may do that no list of the namespace names.
abbrev pub unlisted_write : Manager → String → String → Bool
unlisted_write m namespace who =
    seen (λ (ns : NamespaceInfo). may_write (record ns { allowed_writers = [] }) who)
      (Dict.get m.namespaces namespace)

abbrev pub unlisted_read : Manager → String → String → Bool
unlisted_read m namespace who =
    seen (λ (ns : NamespaceInfo). may_read (record ns { allowed_readers = [] }) who)
      (Dict.get m.namespaces namespace)

seen-without :
    (caller who : String) (f g : NamespaceInfo → Bool) (o : Option NamespaceInfo)
    → seen (λ (ns : NamespaceInfo). if caller == who then f ns else g ns) o
      ≡ (if caller == who then seen f o else seen g o)
seen-without caller who f g none = ground arith
seen-without caller who f g (some ns) = refl

-- Where no list holds a caller twice, a caller whose right to read is revoked keeps what the access
-- level and ownership give, and no other answer changes.
pub check-revoke_read :
    ⦃i : IsoFormat⦄
    → (namespace caller other who : String) (m : Manager) → IsDistinct m
    → check_read (revoke_read namespace caller m) other who ≡ (
        if (namespace == other) && (caller == who)
        then unlisted_read m other who
        else check_read m other who)
unfolding check_read revoke_read
check-revoke_read namespace caller other who m h =
    let read = λ (ns : NamespaceInfo). may_read ns who in
    let kept = λ (ns : NamespaceInfo).
      if caller == who then may_read (record ns { allowed_readers = [] }) who else read ns in
    seen-edit read kept namespace other _ _ m
      (λ ns p. revoked_read caller who ns (h other ns p).1 ∙ ground arith)
    ∙ ground (
      arith,
      seen-without caller who
          (λ (ns : NamespaceInfo). may_read (record ns { allowed_readers = [] }) who) read
          (Dict.get m.namespaces other),
      eq_iff namespace other,
    )
