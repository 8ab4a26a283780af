-- ===== src/Engine/Writer.antt =====
-- embers/engine/writer.py, with the routines that it uses when the native extension is absent, and
-- the wrappers of embers/db.py over it.
use embers_diaries.Prelude.{
  ℕ, ◌+◌, String, Bool, true, false, Option, none, some, List, [], ◌∷◌, ◌++◌, ◌==◌, ◌&&◌,
  if◌then◌else◌, not, get_or, length, member, is_some, while,
}
use embers_diaries.Dict
use embers_diaries.Dict.{Dict}
use embers_diaries.Core.Types.{DeprecationReason}
use embers_diaries.Core.Record.{
  EmberRecord, Annotation, Value, Time, default_record, Hashing, compute_content_hash, seal,
}
use embers_diaries.Core.Result.{
  Error, value_error, key_error, concurrent_modification, Exec, pure, lift, gets, modify, raise_if,
  require, ◌>>=◌, ◌>>◌,
}
use embers_diaries.Storage
use embers_diaries.Storage.{
  Disk, Supersession, Deprecation, Access, Encoding, StorageLimits, WriteDraw,
}
use embers_diaries.Index.Master
use embers_diaries.Engine.State.{Engine, on_disk, UpdateDraw, Operation, notify}

-- `get_superseded_by`
unfoldable pub get_superseded_by : Disk → String → Option String
get_superseded_by d id = elim (Dict.get d.supersessions id) [ none ↦ none | some s ↦ some s.new_id ]

-- The loop of `get_supersession_chain`.
pub record ChainWalk : Type 0 where
  pub current : String
  pub seen : List String
  pub chain : List String

unfoldable pub chain_goes_on : Disk → ChainWalk → Bool
chain_goes_on d w = not (member w.current w.seen) && is_some (get_superseded_by d w.current)

unfoldable pub chain_step : Disk → ChainWalk → ChainWalk
chain_step d w = elim (get_superseded_by d w.current) [
  | none ↦ w
  | some next ↦ record { current = next; seen = w.current ∷ w.seen; chain = w.chain ++ next ∷ [] }
]

-- Each round sees one more record that has a sidecar.
abbrev pub chain_fuel : Disk → ℕ
chain_fuel d = length d.supersessions + 1

unfoldable pub chain_walk : Disk → String → ChainWalk
unfolding chain_goes_on chain_step get_superseded_by
chain_walk d id =
    while (chain_goes_on d) (chain_step d) (chain_fuel d)
      (record { current = id; seen = []; chain = id ∷ [] })

unfoldable pub get_supersession_chain : Disk → String → List String
unfolding chain_walk
get_supersession_chain d id = (chain_walk d id).chain

-- `chain[-1]`
abbrev pub last_of : List String → String → String
last_of [] default = default
last_of (x ∷ xs) default = last_of xs x

unfoldable pub is_deprecated : Disk → String → Bool
is_deprecated d id = Dict.contains d.deprecations id

-- `_mark_superseded`: the sidecar of the old record is written, or written anew.
unfoldable pub mark_superseded : String → String → Time → Disk → Disk
mark_superseded old new now d = record d {
  supersessions =
      Dict.put d.supersessions old (record { old_id = old; new_id = new; timestamp = now });
}

-- What a caller of `update` passes beside the record and its new data.
pub record UpdateArgs : Type 0 where
  pub written_by : String
  pub agent_id : Option String
  pub session_id : Option String
  pub creation_reason : Option String
  pub derived_from : List String
  pub expected_hash : Option String

module _ ⦃h : Hashing⦄ where
  -- `old.content_hash or old.compute_content_hash()`: the empty text counts as no hash.
  unfoldable pub hash_of : EmberRecord → String
  hash_of r = elim r.content_hash [
    | none ↦ compute_content_hash r
    | some s ↦ if s == "" then compute_content_hash r else s
  ]

  -- The record that `update` builds from the old one.
  unfoldable pub new_version : UpdateDraw → String → Value → UpdateArgs → EmberRecord → EmberRecord
  new_version u old_id content args old = record (default_record u.new_id u.write_draw.now) {
    namespace = old.namespace;
    record_type = old.record_type;
    content = content;
    version = old.version + 1;
    parent_hash = some (hash_of old);
    supersedes = some old_id;
    written_by = args.written_by;
    agent_id = args.agent_id;
    session_id = args.session_id;
    creation_reason = args.creation_reason;
    derived_from = args.derived_from;
    tags = old.tags;
    confidence = old.confidence;
    decay_rate = old.decay_rate;
    parent_id = old.parent_id;
    training_candidate = old.training_candidate;
    retrieval_candidate = old.retrieval_candidate;
  }

  -- The error of a stale `expected_hash`.
  abbrev pub stale : String → String → String → EmberRecord → Error
  stale id expected head_id head =
      concurrent_modification id expected (hash_of head) head.version (head.version + 1) head_id

  -- The record that `update` supersedes: the one asked for, or under `expected_hash` the head of its
  -- chain, whose hash must be the expected one.
  unfoldable pub resolve_target : Option String → String → Exec Engine String
  resolve_target none id = pure id
  resolve_target (some expected) id = do
    head_id ← gets (λ s. last_of (get_supersession_chain s.disk id) id)
    found ← (λ s. (Storage.read head_id s.disk, s))
    head ← require found key_error
    raise_if (not (hash_of head == expected)) (stale id expected head_id head)
    pure head_id

  module _ ⦃c : Encoding⦄ (limits : StorageLimits) where
    unfoldable pub write : WriteDraw → EmberRecord → Exec Engine String
    write w r = do
      sealed ← lift (seal r)
      present ← gets (λ s. Storage.exists sealed.id s.disk)
      raise_if present value_error
      id ← on_disk (Storage.write limits w sealed)
      modify (notify sealed Operation.write)
      pure id

    -- What `update` does once its target is read.
    unfoldable pub supersede :
        UpdateDraw → String → Value → UpdateArgs → EmberRecord → Exec Engine (String × String)
    supersede u old_id content args old = do
      raise_if old.deprecated value_error
      sealed ← lift (seal (new_version u old_id content args old))
      on_disk (Storage.write limits u.write_draw sealed)
      on_disk (modify (mark_superseded old_id u.new_id u.write_draw.now))
      modify (notify sealed Operation.update)
      pure (u.new_id, old_id)

    unfoldable pub update : UpdateDraw → String → Value → UpdateArgs → Exec Engine (String × String)
    update u id content args = do
      old_id ← resolve_target args.expected_hash id
      found ← (λ s. (Storage.read old_id s.disk, s))
      old ← require found key_error
      supersede u old_id content args old

-- `record_access`: the sidecar's counter goes up by one.
unfoldable pub access_count_of : Disk → String → ℕ
access_count_of d id = elim (Dict.get d.access id) [ none ↦ 0 | some a ↦ a.access_count ]

unfoldable pub record_access : Time → String → Exec Engine (ℕ × Time)
record_access now id = do
  before ← gets (λ s. access_count_of s.disk id)
  on_disk (
      modify (λ d. record d {
        access = Dict.put d.access id (record { access_count = before + 1; last_accessed = now });
      }))
  pure (before + 1, now)

-- `get_access_stats`
unfoldable pub get_access_stats : Disk → String → ℕ × Option Time
get_access_stats d id = elim (Dict.get d.access id) [
  | none ↦ (0, none)
  | some a ↦ (a.access_count, some a.last_accessed)
]

unfoldable pub get_annotations : Disk → String → List Annotation
get_annotations d id = get_or (Dict.get d.annotations id) []

module _ ⦃h : Hashing⦄ where
  -- `WriteEngine.deprecate`
  mark_deprecated : String → DeprecationReason → String → String → Time → Exec Engine Bool
  mark_deprecated id reason note author now = do
    found ← (λ s. (Storage.read id s.disk, s))
    r ← require found key_error
    marked ← gets (λ s. is_deprecated s.disk id)
    if marked then pure false else do
      on_disk (
          modify (λ d. record d {
            deprecations = Dict.put d.deprecations id (record {
              record_id = id;
              reason = reason;
              note = note;
              written_by = author;
              timestamp = now;
            });
          }))
      modify (notify r Operation.deprecate)
      pure true

  -- `EmberDB.deprecate`: the master index is marked where the engine wrote the sidecar.
  unfoldable pub deprecate : String → DeprecationReason → String → String → Time → Exec Engine Bool
  unfolding mark_deprecated
  deprecate id reason note author now = do
    done ← mark_deprecated id reason note author now
    modify (λ s. if done then record s { index = Master.mark_deprecated id s.index } else s)
    pure done

  -- `annotate`: the annotation is stored under its record before the record is read for the callback.
  unfoldable pub annotate : String → Annotation → Exec Engine String
  annotate id a = do
    present ← gets (λ s. Storage.exists id s.disk)
    raise_if (not present) key_error
    let target = record a { target_record_id = id }
    on_disk (
        modify (λ d. record d {
          annotations = Dict.put d.annotations id (get_annotations d id ++ target ∷ []);
        }))
    found ← (λ s. (Storage.read id s.disk, s))
    modify (λ s. elim found [ none ↦ s | some r ↦ notify r Operation.annotate s ])
    pure a.id
