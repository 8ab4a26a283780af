-- ===== src/Engine/State.antt =====
-- The state that the engines share, what one operation draws from outside, and the callback of
-- embers/db.py that keeps the master index in step (`_on_write`, `_index_record`).
use embers_diaries.Prelude.{String, Option, none, some, ◌==◌, if◌then◌else◌}
use embers_diaries.Core.Record.{EmberRecord}
use embers_diaries.Core.Result.{Exec}
use embers_diaries.Storage.{Disk, WriteDraw}
use embers_diaries.Index.Master
use embers_diaries.Index.Master.{MasterIndex, Meta}

pub record Engine : Type 0 where
  pub disk : Disk
  pub index : MasterIndex

-- An action of the store, inside the engine.
abbrev pub on_disk : {A : Type 0} → Exec Disk A → Exec Engine A
on_disk m s = let (result, d) = m s.disk in (result, record s { disk = d })

-- The draws of `update`: the new id, its creation time, and those of the write.
pub record UpdateDraw : Type 0 where
  pub new_id : String
  pub write_draw : WriteDraw

-- The operations that a callback is told of.
pub data Operation : Type 0 where
  write update deprecate annotate : Operation

abbrev pub meta_of : EmberRecord → Meta
meta_of r = record {
  namespace = r.namespace;
  record_type = r.record_type;
  created_at = r.created_at;
  tags = r.tags;
  written_by = r.written_by;
  agent_id = r.agent_id;
  session_id = r.session_id;
  supersedes = r.supersedes;
}

-- The master index's part of `_index_record`.
unfoldable pub index_record : EmberRecord → MasterIndex → MasterIndex
index_record r x = Master.index_record r.id (meta_of r) x

mark_present : Option String → String → MasterIndex → MasterIndex
mark_present none new x = x
mark_present (some old) new x = if old == "" then x else Master.mark_superseded old new x

unfoldable pub on_write : EmberRecord → Operation → MasterIndex → MasterIndex
unfolding mark_present
on_write r write x = index_record r x
on_write r update x = mark_present r.supersedes r.id (index_record r x)
on_write r deprecate x = x
on_write r annotate x = x

-- `_notify`, with the one callback that EmberDB registers.
abbrev pub notify : EmberRecord → Operation → Engine → Engine
notify r op s = record s { index = on_write r op s.index }
