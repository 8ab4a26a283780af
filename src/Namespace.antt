-- ===== src/Namespace.antt =====
-- embers/namespace/manager.py: the registry of namespaces and who may read and write them. The
-- registry file is the dict that its bytes decode to. JSON, which encodes and decodes it, is a library's;
-- a file that does not decode counts as an empty one.
pub mod Access
pub mod Reload
pub mod Registry
mod Tests
use embers_diaries.Prelude.{
  ℕ, String, Bool, true, false, Option, none, some, List, [], ◌∷◌, ◌++◌, ◌==◌, ◌||◌, if◌then◌else◌,
  not, length, member, get_or,
}
use embers_diaries.Dict
use embers_diaries.Dict.{Dict}
use embers_diaries.Core.Types.{AccessLevel}
use embers_diaries.Core.Record.{Time, Fields, Value, null, text, list, dict, end, field}
use embers_diaries.Database.Fields.{
  get_field, text_at, texts_in, of_texts, IsoFormat, time_at, of_time, required_text,
}
use embers_diaries.Engine.Reader
use embers_diaries.Core.Result.{
  Error, value_error, access_denied, Result, ok, err, Exec, pure, gets, modify, raise_if, ◌>>=◌,
  ◌>>◌,
}

pub record NamespaceInfo : Type 0 where
  pub name : String
  pub description : String
  pub access_level : AccessLevel
  pub owner : String
  pub schema_hint : Option Fields
  pub created_at : Time
  pub allowed_writers : List String
  pub allowed_readers : List String

-- The values of `AccessLevel`, and back.
unfoldable pub level_value : AccessLevel → String
level_value AccessLevel.public = "public"
level_value AccessLevel.private = "private"
level_value AccessLevel.internal = "internal"

unfoldable pub level_of : String → Result AccessLevel
level_of s =
    if s == "public"
    then ok AccessLevel.public
    else if s == "private"
    then ok AccessLevel.private
    else if s == "internal"
    then ok AccessLevel.internal
    else err value_error

abbrev pub of_hint : Option Fields → Value
of_hint none = null
of_hint (some d) = dict d

-- `d.get("schema_hint")`
unfoldable pub hint_from : Option Value → Result (Option Fields)
hint_from none = ok none
hint_from (some null) = ok none
hint_from (some (dict d)) = ok (some d)
hint_from (some _) = err value_error

-- `d.get(k, []) or []`
unfoldable pub callers_from : Option Value → Result (List String)
callers_from none = ok []
callers_from (some null) = ok []
callers_from (some (list vs)) = texts_in vs
callers_from (some _) = err value_error

-- `NamespaceInfo.to_dict`
unfoldable pub info_dict : ⦃i : IsoFormat⦄ → NamespaceInfo → Fields
info_dict ns = field "name" (text ns.name) (
    field "description" (text ns.description) (
      field "access_level" (text (level_value ns.access_level)) (
        field "owner" (text ns.owner) (
          field "schema_hint" (of_hint ns.schema_hint) (
            field "created_at" (of_time (some ns.created_at)) (
              field "allowed_writers" (list (of_texts ns.allowed_writers))
                (field "allowed_readers" (list (of_texts ns.allowed_readers)) end)))))))

-- `NamespaceInfo.from_dict`, with the time that it draws where there is none.
unfoldable pub info_from : ⦃i : IsoFormat⦄ → Time → Fields → Result NamespaceInfo
info_from now d = Reader.◌>>=◌ (required_text d "name") λ name.
    Reader.◌>>=◌ (text_at d "description" "") λ description.
      Reader.◌>>=◌ (text_at d "access_level" "private") λ level_text.
        Reader.◌>>=◌ (level_of level_text) λ access_level.
          Reader.◌>>=◌ (text_at d "owner" "system") λ owner.
            Reader.◌>>=◌ (hint_from (get_field d "schema_hint")) λ schema_hint.
              Reader.◌>>=◌ (time_at d "created_at" (some now)) λ created_at.
                Reader.◌>>=◌ (callers_from (get_field d "allowed_writers")) λ allowed_writers.
                  Reader.◌>>=◌ (callers_from (get_field d "allowed_readers")) λ allowed_readers.
                    ok (record {
                      name = name;
                      description = description;
                      access_level = access_level;
                      owner = owner;
                      schema_hint = schema_hint;
                      created_at = get_or created_at now;
                      allowed_writers = allowed_writers;
                      allowed_readers = allowed_readers;
                    })

-- The namespaces in memory, and the registry file, if there is one.
pub record Manager : Type 0 where
  pub namespaces : Dict NamespaceInfo
  pub registry : Option (Dict Fields)

-- The loop of `_load`: the first entry that cannot be read ends it, and the entries before it stay.
unfoldable pub load_each :
    ⦃i : IsoFormat⦄ → Time → Dict Fields → Dict NamespaceInfo → Dict NamespaceInfo
load_each now [] loaded = loaded
load_each now ((name, info) ∷ rest) loaded = elim (info_from now info) [
  | err e ↦ loaded
  | ok ns ↦ load_each now rest (Dict.put loaded name ns)
]

-- `_load`, from a file that may be missing.
abbrev pub load : ⦃i : IsoFormat⦄ → Time → Option (Dict Fields) → Manager
load now none = record { namespaces = []; registry = none }
load now (some file) = record { namespaces = load_each now file []; registry = some file }

-- `persist`
unfoldable pub info_dicts : ⦃i : IsoFormat⦄ → Dict NamespaceInfo → Dict Fields
info_dicts [] = []
info_dicts ((name, ns) ∷ d) = (name, info_dict ns) ∷ info_dicts d

-- Every change is followed by `persist`.
abbrev pub change : ⦃i : IsoFormat⦄ → Dict NamespaceInfo → Manager
change d = record { namespaces = d; registry = some (info_dicts d) }

abbrev pub exists : Manager → String → Bool
exists m name = Dict.contains m.namespaces name

abbrev pub list_all : Manager → List NamespaceInfo
list_all m = Dict.values m.namespaces

abbrev pub count : Manager → ℕ
count m = length m.namespaces

unfoldable pub create :
    ⦃i : IsoFormat⦄
    → String
    → String
    → AccessLevel
    → String
    → Option Fields
    → Time
    → Exec Manager NamespaceInfo
create name description level owner schema_hint now = do
  there ← gets (λ m. exists m name)
  raise_if there value_error
  let ns : NamespaceInfo = record {
    name = name;
    description = description;
    access_level = level;
    owner = owner;
    schema_hint = schema_hint;
    created_at = now;
    allowed_writers = [];
    allowed_readers = [];
  }
  modify (λ m. change (Dict.put m.namespaces name ns))
  pure ns

unfoldable pub delete : ⦃i : IsoFormat⦄ → String → Exec Manager Bool
delete name m =
    if exists m name then (ok true, change (Dict.remove m.namespaces name)) else (ok false, m)

unfoldable pub may_read : NamespaceInfo → String → Bool
may_read ns caller = elim ns.access_level [
  | AccessLevel.public ↦ true
  | AccessLevel.internal ↦ true
  | AccessLevel.private ↦ (caller == ns.owner) || member caller ns.allowed_readers
]

unfoldable pub may_write : NamespaceInfo → String → Bool
may_write ns caller = elim ns.access_level [
  | AccessLevel.public ↦ true
  | AccessLevel.internal ↦ (caller == ns.owner) || member caller ns.allowed_writers
  | AccessLevel.private ↦ (caller == ns.owner) || member caller ns.allowed_writers
]

-- A namespace that is not registered is open.
unfoldable pub check_read : Manager → String → String → Bool
check_read m namespace caller = elim (Dict.get m.namespaces namespace) [
  | none ↦ true
  | some ns ↦ may_read ns caller
]

unfoldable pub check_write : Manager → String → String → Bool
check_write m namespace caller = elim (Dict.get m.namespaces namespace) [
  | none ↦ true
  | some ns ↦ may_write ns caller
]

unfoldable pub require_read : String → String → Exec Manager (Unit {0})
require_read namespace caller m = raise_if (not (check_read m namespace caller)) access_denied m

unfoldable pub require_write : String → String → Exec Manager (Unit {0})
require_write namespace caller m = raise_if (not (check_write m namespace caller)) access_denied m

-- `list.remove`: the first copy goes.
unfoldable pub remove_first : String → List String → List String
remove_first a [] = []
remove_first a (x ∷ xs) = let rest = remove_first a xs in if x == a then xs else x ∷ rest

-- `if ns and test(ns): …; self.persist()`: the object is changed in place, and so its entry in the
-- dict is.
unfoldable pub edit :
    ⦃i : IsoFormat⦄
    → String
    → (NamespaceInfo → Bool)
    → (NamespaceInfo → NamespaceInfo)
    → Manager
    → Manager
edit namespace test f m = elim (Dict.get m.namespaces namespace) [
  | none ↦ m
  | some ns ↦ if test ns then change (Dict.put m.namespaces namespace (f ns)) else m
]

unfoldable pub grant_read : ⦃i : IsoFormat⦄ → String → String → Manager → Manager
grant_read namespace caller m =
    edit namespace (λ ns. not (member caller ns.allowed_readers))
      (λ ns. record ns { allowed_readers = ns.allowed_readers ++ caller ∷ [] }) m

unfoldable pub grant_write : ⦃i : IsoFormat⦄ → String → String → Manager → Manager
grant_write namespace caller m =
    edit namespace (λ ns. not (member caller ns.allowed_writers))
      (λ ns. record ns { allowed_writers = ns.allowed_writers ++ caller ∷ [] }) m

unfoldable pub revoke_read : ⦃i : IsoFormat⦄ → String → String → Manager → Manager
revoke_read namespace caller m =
    edit namespace (λ ns. member caller ns.allowed_readers)
      (λ ns. record ns { allowed_readers = remove_first caller ns.allowed_readers }) m

unfoldable pub revoke_write : ⦃i : IsoFormat⦄ → String → String → Manager → Manager
revoke_write namespace caller m =
    edit namespace (λ ns. member caller ns.allowed_writers)
      (λ ns. record ns { allowed_writers = remove_first caller ns.allowed_writers }) m
