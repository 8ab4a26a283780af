-- ===== src/Engine/Chain.antt =====
-- The chain of versions that `WriteEngine.get_supersession_chain` follows
-- (embers/engine/writer.py), and where it ends.
use embers_diaries.Prelude.{
  ℕ, suc, ◌-◌, ◌<◌, String, true, false, Option, none, some, List, [], ◌∷◌, ◌++◌, ◌≡◌, refl, sym,
  ◌∙◌, ap, arith, ◌==◌, eq_iff, inl, inr, Bool-cases, Option-cases, subst, length, member,
  while_inv, NoRepeats, IsWithin, pigeonhole, is_some,
}
use embers_diaries.Dict
use embers_diaries.Core.Record.{EmberRecord, Hashing}
use embers_diaries.Storage.{Disk, stored, RecordFile}
use embers_diaries.Engine.Writer.{
  get_superseded_by, ChainWalk, chain_goes_on, chain_step, chain_fuel, chain_walk,
  get_supersession_chain, last_of,
}
use embers_diaries.Engine.Lineage.{IsLineage}

-- A later version: the record itself, or a successor of a later version.
pub data Follows (d : Disk) (first : String) : String → Type 0 where
  here : Follows d first first
  onward : {b c : String} → Follows d first b → get_superseded_by d b ≡ some c → Follows d first c

last_of-snoc : (xs : List String) (a b : String) → last_of (xs ++ a ∷ []) b ≡ a
last_of-snoc [] a b = refl
last_of-snoc (x ∷ xs) a b = last_of-snoc xs a x

length-keys {ℓ} : {V : Type ℓ} (d : Dict.Dict V) → length (Dict.keys d) ≡ length d
length-keys [] = refl
length-keys (x ∷ d) = ap suc (length-keys d)

superseded_by-member :
    (d : Disk) (k : String)
    → is_some (get_superseded_by d k) ≡ true
    → member k (Dict.keys d.supersessions) ≡ true
unfolding get_superseded_by
superseded_by-member d k h = ground (arith, Dict.member-keys d.supersessions k)

module _ (d : Disk) (first : String) where
  record IsChainWalk (w : ChainWalk) : Type 0 where
    distinct : NoRepeats w.seen
    within : IsWithin w.seen (Dict.keys d.supersessions)
    follows : Follows d first w.current
    last : last_of w.chain first ≡ w.current

  abbrev left : ChainWalk → ℕ
  left w = length d.supersessions - length w.seen

  chain_start : ChainWalk
  chain_start = record { current = first; seen = []; chain = first ∷ [] }

  chain_step-IsChainWalk :
      (w : ChainWalk)
      → IsChainWalk w
      → chain_goes_on d w ≡ true
      → IsChainWalk (chain_step d w) × (left (chain_step d w) < left w)
  unfolding chain_goes_on chain_step
  chain_step-IsChainWalk w h go = elim (Option-cases (get_superseded_by d w.current)) [
    | inl p ↦ absurd (ground (arith, p))
    | inr (next, p) ↦
        let new : member w.current w.seen ≡ false = ground (arith, p) in
        let kept : IsChainWalk
            (record { current = next; seen = w.current ∷ w.seen; chain = w.chain ++ next ∷ [] }) =
          record {
            distinct = (new, h.distinct);
            within = λ a m.
                ground (arith, h.within a, superseded_by-member d w.current, eq_iff w.current a, p);
            follows = onward h.follows p;
            last = last_of-snoc w.chain next first;
          } in
        let bound =
          pigeonhole (w.current ∷ w.seen) (Dict.keys d.supersessions) kept.distinct kept.within in
        rw (p, chain_step) (kept, omega (arith, bound, length-keys d.supersessions))
  ]

  chain_walk-IsChainWalk :
      IsChainWalk (chain_walk d first) × (chain_goes_on d (chain_walk d first) ≡ false)
  unfolding chain_walk
  chain_walk-IsChainWalk =
      while_inv (chain_goes_on d) (chain_step d) IsChainWalk left chain_step-IsChainWalk
        (chain_fuel d) (record { current = first; seen = []; chain = first ∷ [] }) (omega arith)
        (record { distinct = tt; within = λ a m. ground arith; follows = here; last = refl })

module _ ⦃h : Hashing⦄ (d : Disk) (lineage : IsLineage d) (first : String) where
  -- Both are stored, the first with the lower version.
  record Older (a b : String) : Type 0 where
    low : EmberRecord
    high : EmberRecord
    low_stored : Dict.get d.records a ≡ some (stored low)
    high_stored : Dict.get d.records b ≡ some (stored high)
    lower : low.version < high.version

  link-Older : (a b : String) → get_superseded_by d a ≡ some b → Older a b
  link-Older a b p =
      let l = lineage a b p in
      record {
        low = l.old;
        high = l.new;
        low_stored = l.old_stored;
        high_stored = l.new_stored;
        lower = omega (arith, l.version);
      }

  same_version :
      (a : String) (q r : EmberRecord)
      → Dict.get d.records a ≡ some (stored q)
      → Dict.get d.records a ≡ some (stored r)
      → q.version ≡ r.version
  same_version a q r p t = ap version_of (sym p ∙ t)
    where
      version_of : Option RecordFile → ℕ
      version_of (some (stored x)) = x.version
      version_of _ = 0

  Older-trans : {a b c : String} → Older a b → Older b c → Older a c
  Older-trans {a} {b} {c} p q = record {
    low = p.low;
    high = q.high;
    low_stored = p.low_stored;
    high_stored = q.high_stored;
    lower = omega (arith, p.lower, q.lower, same_version b p.high q.low p.high_stored q.low_stored);
  }

  not-Older_self : (a : String) → Older a a → ⊥
  not-Older_self a p =
      omega (arith, p.lower, same_version a p.low p.high p.low_stored p.high_stored)

  abbrev AllOlder : ChainWalk → Type 0
  AllOlder w = (a : String) → member a w.seen ≡ true → Older a w.current

  chain_step-AllOlder :
      (w : ChainWalk) → AllOlder w → chain_goes_on d w ≡ true → AllOlder (chain_step d w)
  unfolding chain_goes_on chain_step
  chain_step-AllOlder w h go = elim (Option-cases (get_superseded_by d w.current)) [
    | inl p ↦ absurd (ground (arith, p))
    | inr (next, p) ↦
        rw (p, chain_step)
          (λ a m. elim (Bool-cases (w.current == a)) [
            | inl same ↦
                subst (λ x. Older x next) ((eq_iff w.current a).0 same)
                  (link-Older w.current next p)
            | inr other ↦ Older-trans (h a (ground arith)) (link-Older w.current next p)
          ])
  ]

  chain_walk-AllOlder : AllOlder (chain_walk d first)
  unfolding chain_walk
  chain_walk-AllOlder =
      (while_inv (chain_goes_on d) (chain_step d) (λ w. IsChainWalk d first w × AllOlder w)
        (left d first)
        (λ w (k, o) go.
          let (kept, less) = chain_step-IsChainWalk d first w k go in
          ((kept, chain_step-AllOlder w o go), less))
        (chain_fuel d) (record { current = first; seen = []; chain = first ∷ [] }) (omega arith)
        (
          record { distinct = tt; within = λ a m. ground arith; follows = here; last = refl },
          λ a m. absurd (ground arith),
        )).0.1

  -- Where the version links are well formed, the last record of a chain is a later version of the
  -- one asked for, and nothing has superseded it.
  pub last_of-get_supersession_chain :
      let head = last_of (get_supersession_chain d first) first in
      Follows d first head × (get_superseded_by d head ≡ none)
  unfolding get_supersession_chain chain_goes_on
  last_of-get_supersession_chain =
      let (kept, halt) = chain_walk-IsChainWalk d first in
      let w = chain_walk d first in
      rw kept.last (
        kept.follows,
        elim (Bool-cases (member w.current w.seen)) [
          | inl again ↦ absurd (not-Older_self w.current (chain_walk-AllOlder w.current again))
          | inr new ↦ elim (Option-cases (get_superseded_by d w.current)) [
            | inl p ↦ p
            | inr (next, p) ↦ absurd (ground (arith, halt, p, new))
          ]
        ],
      )
