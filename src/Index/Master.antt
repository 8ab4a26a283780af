-- ===== src/Index/Master.antt =====
-- embers/index/master.py: the master index. A `defaultdict(set)` is a dict of texts to sets, and
-- reading a missing key gives the empty set. Sets are lists: their order is not part of any result.
-- The loops take as fuel a bound on the nodes that they can visit.
pub mod Walks
pub mod Descendants
pub mod Frame
mod Tests
use embers_diaries.Prelude.{
  ℕ, suc, ◌+◌, String, Bool, true, false, Option, none, some, List, [], ◌∷◌, ◌++◌, map, ◌==◌,
  if◌then◌else◌, not, ◌||◌, ◌&&◌, get_or, length, member, add, select, while, is_some, ltb,
}
use embers_diaries.Dict
use embers_diaries.Dict.{Dict}
use embers_diaries.Core.Types.{RecordType}
use embers_diaries.Core.Record.{Time}

abbrev pub TextSet : Type 0
TextSet = List String

-- The `meta` dict of one record.
pub record Meta : Type 0 where
  pub namespace : String
  pub record_type : RecordType
  pub created_at : Time
  pub tags : List String
  pub written_by : String
  pub agent_id : Option String
  pub session_id : Option String
  pub supersedes : Option String

pub record MasterIndex : Type 0 where
  pub records : Dict Meta
  pub namespaces : Dict TextSet
  pub tags : Dict TextSet
  pub superseded : Dict String
  pub supersedes : Dict String
  pub deprecated : TextSet
  pub written_by : Dict TextSet
  pub by_agent : Dict TextSet
  pub by_session : Dict TextSet
  pub version_children : Dict TextSet
  pub version_parent : Dict String

abbrev pub empty : MasterIndex
empty = record {
  records = [];
  namespaces = [];
  tags = [];
  superseded = [];
  supersedes = [];
  deprecated = [];
  written_by = [];
  by_agent = [];
  by_session = [];
  version_children = [];
  version_parent = [];
}

-- `d.get(k, set())`
unfoldable pub set_at : Dict TextSet → String → TextSet
set_at d k = get_or (Dict.get d k) []

-- `d[k].add(a)`
unfoldable pub add_at : Dict TextSet → String → String → Dict TextSet
unfolding set_at
add_at d k a = Dict.put d k (add a (set_at d k))

-- `for k in ks: d[k].add(a)`
unfoldable pub add_at_each : Dict TextSet → List String → String → Dict TextSet
add_at_each d [] a = d
add_at_each d (k ∷ ks) a = add_at_each (add_at d k a) ks a

-- `if k: d[k].add(a)`: the empty text is as good as none.
unfoldable pub add_at_present : Dict TextSet → Option String → String → Dict TextSet
add_at_present d none a = d
add_at_present d (some k) a = if k == "" then d else add_at d k a

-- `_link_version`
unfoldable pub link_version : String → String → MasterIndex → MasterIndex
link_version parent child x = record x {
  version_children = add_at x.version_children parent child;
  version_parent = Dict.put x.version_parent child parent;
}

link_present : Option String → String → MasterIndex → MasterIndex
link_present none child x = x
link_present (some parent) child x = if parent == "" then x else link_version parent child x

unfoldable pub index_record : String → Meta → MasterIndex → MasterIndex
unfolding link_present
index_record id m x = link_present m.supersedes id (record x {
  records = Dict.put x.records id m;
  namespaces = add_at x.namespaces m.namespace id;
  tags = add_at_each x.tags m.tags id;
  written_by = add_at_present x.written_by (some m.written_by) id;
  by_agent = add_at_present x.by_agent m.agent_id id;
  by_session = add_at_present x.by_session m.session_id id;
})

unfoldable pub mark_superseded : String → String → MasterIndex → MasterIndex
unfolding link_version
mark_superseded old new x = link_version old new (record x {
  superseded = Dict.put x.superseded old new;
  supersedes = Dict.put x.supersedes new old;
})

unfoldable pub mark_deprecated : String → MasterIndex → MasterIndex
mark_deprecated id x = record x { deprecated = add id x.deprecated }

unfoldable pub is_superseded : MasterIndex → String → Bool
is_superseded x id = Dict.contains x.superseded id

unfoldable pub is_deprecated : MasterIndex → String → Bool
is_deprecated x id = member id x.deprecated

-- `get_namespace_ids`
visible : Bool → Bool → MasterIndex → String → Bool
unfolding is_deprecated is_superseded
visible include_deprecated include_superseded x id =
    if not include_deprecated && is_deprecated x id
    then false
    else if not include_superseded && is_superseded x id
    then false
    else true

unfoldable pub get_namespace_ids : MasterIndex → String → Bool → Bool → List String
unfolding visible
get_namespace_ids x namespace include_deprecated include_superseded =
    select (visible include_deprecated include_superseded x) (set_at x.namespaces namespace)

unfoldable pub get_by_tag : MasterIndex → String → TextSet
get_by_tag x tag = set_at x.tags tag

unfoldable pub get_by_author : MasterIndex → String → TextSet
get_by_author x author = set_at x.written_by author

unfoldable pub get_by_agent : MasterIndex → String → TextSet
get_by_agent x agent = set_at x.by_agent agent

unfoldable pub has_agent : MasterIndex → String → Bool
has_agent x agent = Dict.contains x.by_agent agent

unfoldable pub get_by_session : MasterIndex → String → TextSet
get_by_session x session = set_at x.by_session session

-- A walk along links: where it is, what it has seen, and what it has collected.
pub record Walk : Type 0 where
  pub current : String
  pub seen : TextSet
  pub out : List String

-- The loop goes on while the current node has a link to one that was not seen.
goes_on : Dict String → Walk → Bool
goes_on links w = elim (Dict.get links w.current) [
  | none ↦ false
  | some next ↦ not (member next w.seen)
]

step : Dict String → Walk → Walk
step links w = elim (Dict.get links w.current) [
  | none ↦ w
  | some next ↦ record { current = next; seen = next ∷ w.seen; out = w.out ++ next ∷ [] }
]

abbrev pub walk_fuel : Dict String → ℕ
walk_fuel links = length links + 1

walk : Dict String → Walk → Walk
unfolding goes_on step
walk links w = while (goes_on links) (step links) (walk_fuel links) w

abbrev pub walk_from : String → Walk
walk_from id = record { current = id; seen = id ∷ []; out = id ∷ [] }

-- `get_supersession_chain`: back to the root along `supersedes`, then forward along `superseded`.
unfoldable pub get_supersession_chain : MasterIndex → String → List String
unfolding walk
get_supersession_chain x id =
    let root = (walk x.supersedes (walk_from id)).current in
    (walk x.superseded (walk_from root)).out

unfoldable pub get_version_children : MasterIndex → String → TextSet
get_version_children x id = set_at x.version_children id

unfoldable pub get_version_parent : MasterIndex → String → Option String
get_version_parent x id = Dict.get x.version_parent id

unfoldable pub get_version_root : MasterIndex → String → String
unfolding walk
get_version_root x id = (walk x.version_parent (walk_from id)).current

-- The loop of `get_version_descendants`: the stack's top is its head.
pub record Sweep : Type 0 where
  pub stack : List String
  pub seen : TextSet
  pub out : TextSet

-- `for child in children: if child not in seen: …`
visit_children : List String → Sweep → Sweep
visit_children [] s = s
visit_children (c ∷ cs) s = visit_children cs (
    if member c s.seen
    then s
    else record { stack = c ∷ s.stack; seen = c ∷ s.seen; out = c ∷ s.out })

has_work : Sweep → Bool
has_work s = elim s.stack [ [] ↦ false | n ∷ ns ↦ true ]

sweep_step : Dict TextSet → Sweep → Sweep
sweep_step children s = elim s.stack [
  | [] ↦ s
  | n ∷ ns ↦ visit_children (set_at children n) (record s { stack = ns })
]

-- How many links there are.
links_of : Dict TextSet → List String
links_of [] = []
links_of ((k, cs) ∷ d) = cs ++ links_of d

abbrev sweep_from : String → Sweep
sweep_from id = record { stack = id ∷ []; seen = id ∷ []; out = [] }

abbrev sweep_fuel : Dict TextSet → ℕ
sweep_fuel children = length (links_of children) + 3

sweep : Dict TextSet → String → Sweep
unfolding visit_children has_work sweep_step links_of
sweep children id = while has_work (sweep_step children) (sweep_fuel children) (sweep_from id)

unfoldable pub get_version_descendants : MasterIndex → String → TextSet
unfolding sweep
get_version_descendants x id = (sweep x.version_children id).out

-- `_lineage_nodes`
unfoldable pub lineage_nodes : MasterIndex → String → TextSet
lineage_nodes x id = let root = get_version_root x id in root ∷ get_version_descendants x root

is_empty : TextSet → Bool
is_empty [] = true
is_empty (a ∷ s) = false

unfoldable pub get_version_heads : MasterIndex → String → TextSet
unfolding is_empty
get_version_heads x id = select (λ n. is_empty (get_version_children x n)) (lineage_nodes x id)

unfoldable pub get_branch_points : MasterIndex → String → TextSet
get_branch_points x id =
    select (λ n. ltb 1 (length (get_version_children x n))) (lineage_nodes x id)
