-- ===== src/Identity/Gate.antt =====
-- `resolve_agent` of embers/api/session_gate.py: the agent that a request comes from. The refusal of the
-- HTTP layer (status 401) is `permission_error`.
use embers_diaries.Prelude.{String, Bool, Option, ◌==◌, ◌&&◌, if◌then◌else◌, not, get_or}
use embers_diaries.Core.Record.{Hashing}
use embers_diaries.Core.Result.{permission_error, Exec, raise, raise_if, require, ◌>>=◌, ◌>>◌}
use embers_diaries.Engine.State.{Engine}
use embers_diaries.Database.Fields.{IsoFormat}
use embers_diaries.Database.Session.Payload.{is_open}
use embers_diaries.Database.Session.Operations.{Spare, get_session}
use embers_diaries.Identity.Registry.{AgentIdentity, TokenDigest, authenticate, registry_get}

-- The truth value of an optional text, and `a or b` of two.
abbrev pub is_given : Option String → Bool
is_given x = not (get_or x "" == "")

abbrev pub first_given : Option String → Option String → Option String
first_given a b = if is_given a then a else b

module _ ⦃h : Hashing⦄ ⦃i : IsoFormat⦄ ⦃t : TokenDigest⦄ where
  -- The agent of a session that is active.
  unfoldable pub agent_of_session : Spare → String → Exec Engine AgentIdentity
  agent_of_session d session_id = do
    found ← get_session d session_id
    session ← require found permission_error
    raise_if (not (is_open session)) permission_error
    known ← registry_get session.agent_id
    require known permission_error

  -- `resolve_agent`; a session that is passed comes before that of the request's header.
  unfoldable pub resolve_agent :
      Spare
      → Option String
      → Option String
      → Option String
      → Option String
      → Exec Engine AgentIdentity
  resolve_agent d header agent_id token session_id =
      let given = first_given session_id header in
      if is_given agent_id && is_given token
      then authenticate (get_or agent_id "") (get_or token "")
      else if is_given given
      then agent_of_session d (get_or given "")
      else raise permission_error
