-- ===== src/Namespace/Tests.antt =====
-- Runs of the registry of namespaces: the theorems at concrete registries.
use embers_diaries.Core.Record.{Time}
use embers_diaries.Core.Result.{ok}
use embers_diaries.Database.Fields.{IsoFormat}
use embers_diaries.Prelude.{
  String, nat_eq, false, none, List, [], ◌∷◌, ◌≡◌, refl, ◌==◌, if◌then◌else◌,
}
use embers_diaries.Core.Types.{AccessLevel}
use embers_diaries.Namespace.{
  Manager, load, check_read, check_write, grant_read, grant_write, revoke_read, revoke_write,
}
use embers_diaries.Namespace.Registry.{
  Op, create_op, grant_write_op, grant_read_op, run_ops, IsWellFormed, run_ops-IsWellFormed,
  empty-IsWellFormed,
}

-- A clock with two times.
instance abbrev two_times : IsoFormat
two_times = record {
  isoformat = λ (t : Time). if nat_eq t 5 then "5" else "9";
  fromisoformat = λ (s : String). if s == "5" then ok 5 else ok 9;
}

abbrev calls : List Op
calls =
    create_op "lab" "" AccessLevel.private "ada" none 5
    ∷ grant_write_op "lab" "ben"
    ∷ grant_read_op "lab" "ben"
    ∷ []

abbrev lab : Manager
lab = run_ops calls (load 5 none)

run_ops-IsWellFormed_example : IsWellFormed lab × ((now : Time) → load now lab.registry ≡ lab)
run_ops-IsWellFormed_example =
    run_ops-IsWellFormed calls (load 5 none) ((refl, refl), (tt, (tt, tt))) (empty-IsWellFormed 5)

abbrev lab-IsWellFormed : IsWellFormed lab
lab-IsWellFormed =
    (run_ops-IsWellFormed calls (load 5 none) ((refl, refl), (tt, (tt, tt)))
      (empty-IsWellFormed 5)).0

revoked_for_good : check_write (revoke_write "lab" "ben" lab) "lab" "ben" ≡ false
unfolding check_write embers_diaries.Dict.get revoke_write embers_diaries.Namespace.edit run_ops
    embers_diaries.Namespace.Registry.apply_op grant_read grant_write
    embers_diaries.Namespace.create embers_diaries.Dict.put embers_diaries.Namespace.may_write
    embers_diaries.Namespace.remove_first
revoked_for_good = refl
