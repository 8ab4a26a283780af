-- ===== src/Index/Master/Tests.antt =====
-- Runs of the master index: the theorems at concrete indexes.
use embers_diaries.Prelude.{
  ℕ, String, Bool, true, false, Option, none, some, List, [], ◌∷◌, ◌≡◌, ◌≢◌, ◌↔◌, refl, member,
}
use embers_diaries.Core.Types.{RecordType}
use embers_diaries.Index.Master.{
  Meta, MasterIndex, empty, index_record, mark_superseded, get_supersession_chain,
  get_version_descendants, get_version_root,
}
use embers_diaries.Index.Master.Walks.{IsChain, get_supersession_chain-IsChain}
use embers_diaries.Index.Master.Descendants.{Reaches, member-get_version_descendants}

abbrev meta : Option String → Meta
meta supersedes = record {
  namespace = "default";
  record_type = RecordType.document;
  created_at = 5;
  tags = [];
  written_by = "system";
  agent_id = none;
  session_id = none;
  supersedes = supersedes;
}

-- Two versions of one record, and a branch.
abbrev branched : MasterIndex
branched = index_record "c" (meta (some "a")) (
    mark_superseded "a" "b"
      (index_record "b" (meta (some "a")) (index_record "a" (meta none) empty)))

-- A cycle, which no run of the engine makes, but a damaged store can hold.
abbrev cyclic : MasterIndex
cyclic = mark_superseded "b" "a" (mark_superseded "a" "b" empty)

get_supersession_chain-IsChain_example : IsChain cyclic "a" (get_supersession_chain cyclic "a")
get_supersession_chain-IsChain_example = get_supersession_chain-IsChain cyclic "a"

member-get_version_descendants_example :
    (member "c" (get_version_descendants branched "a") ≡ true)
    ↔ (Reaches branched.version_children "a" "c" × ◌≢◌ {A = String} "c" "a")
member-get_version_descendants_example = member-get_version_descendants branched "a" "c"

chain_of_cycle : get_supersession_chain cyclic "a" ≡ "b" ∷ "a" ∷ []
unfolding get_supersession_chain embers_diaries.Prelude.while mark_superseded
    embers_diaries.Dict.put embers_diaries.Dict.get
chain_of_cycle = refl

descendants_of_branch : get_version_descendants branched "a" ≡ "c" ∷ "b" ∷ []
unfolding get_version_descendants embers_diaries.Prelude.while index_record
    embers_diaries.Index.Master.link_version embers_diaries.Index.Master.add_at
    embers_diaries.Dict.put mark_superseded embers_diaries.Dict.get
descendants_of_branch = refl

root_of_branch : get_version_root branched "c" ≡ "a"
unfolding get_version_root embers_diaries.Prelude.while index_record
    embers_diaries.Index.Master.link_version embers_diaries.Dict.put mark_superseded
    embers_diaries.Dict.get
root_of_branch = refl
