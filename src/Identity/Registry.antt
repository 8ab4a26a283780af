-- ===== src/Identity/Registry.antt =====
-- embers/identity/registry.py, and the check of attribution before a write of embers/db.py. What a
-- registration draws is passed to it: the id, the token and the clock.
use embers_diaries.Prelude.{
  String, Bool, true, false, Option, none, some, [], ◌∷◌, ◌==◌, ◌&&◌, ◌||◌, if◌then◌else◌, not,
}
use embers_diaries.Core.Types.{RecordType}
use embers_diaries.Core.Record.{
  EmberRecord, Value, Fields, Time, Hashing, default_record, text, dict, end, field,
}
use embers_diaries.Core.Result.{
  value_error, permission_error, Result, ok, err, Exec, pure, lift, raise_if, ◌>>=◌, ◌>>◌,
}
use embers_diaries.Storage.{Encoding, StorageLimits, WriteDraw}
use embers_diaries.Engine.State.{Engine}
use embers_diaries.Engine.Writer.{write}
use embers_diaries.Engine.Reader.{get}
use embers_diaries.Database.Fields.{get_field, as_dict, text_at, IsoFormat}
use embers_diaries.Lobby.Store.{TextMethods}

-- `AGENTS_NS`
abbrev pub agents_ns : String
agents_ns = "_ember_agents"

-- `hashlib.sha256(…).hexdigest()`, of Python's library.
pub record TokenDigest : Type 0 where
  pub hash_token : String → String

pub record AgentIdentity : Type 0 where
  pub agent_id : String
  pub name : String
  pub provider : String
  pub model : String
  pub created_at : String

-- What a registration draws.
pub record Enrolment : Type 0 where
  pub drawn_id : String
  pub token : String
  pub now : Time
  pub recorded : Time
  pub write_draw : WriteDraw

-- `validate_provenance` of the native extension, which looks at the author and the agent.
abbrev names_someone : String → Bool
names_someone s = not (s == "") && not (s == "system")

abbrev has_agent : Option String → Bool
has_agent none = false
has_agent (some s) = names_someone s

unfoldable pub validate_provenance : String → Option String → Bool → Result (Unit {0})
validate_provenance author agent_id enforce =
    if enforce && not (has_agent agent_id) && not (names_someone author)
    then err value_error
    else ok tt

-- `data.get("token_hash") == hash`
abbrev pub holds_text : Option Value → String → Bool
holds_text (some (text s)) hash = s == hash
holds_text _ hash = false

module _ ⦃h : Hashing⦄ ⦃c : Encoding⦄ (enforce : Bool) (limits : StorageLimits) where
  -- `EmberDB.write`, with `_check_attribution`
  unfoldable pub db_write : WriteDraw → EmberRecord → Exec Engine String
  db_write w r = do lift (validate_provenance r.written_by r.agent_id enforce); write limits w r

module _ ⦃i : IsoFormat⦄ where
  -- The identity that a record of the registry holds.
  unfoldable pub identity_of : String → EmberRecord → Fields → Result AgentIdentity
  identity_of asked r d = elim (text_at d "agent_id" asked) [
    | err e ↦ err e
    | ok agent_id ↦ elim (text_at d "name" "") [
      | err e ↦ err e
      | ok name ↦ elim (text_at d "provider" "unknown") [
        | err e ↦ err e
        | ok provider ↦ elim (text_at d "model" "unknown") [
          | err e ↦ err e
          | ok model ↦ ok (record {
            agent_id = agent_id;
            name = name;
            provider = provider;
            model = model;
            created_at = i.isoformat r.created_at;
          })
        ]
      ]
    ]
  ]

  module _ ⦃t : TokenDigest⦄ where
    -- `authenticate`, from the record that `EmberDB.get` found.
    unfoldable pub check_token : String → String → Option EmberRecord → Result AgentIdentity
    check_token asked token none = err permission_error
    check_token asked token (some r) =
        if not (r.namespace == agents_ns) then err permission_error else elim (as_dict r.content) [
          | err e ↦ err e
          | ok d ↦
              let identity = identity_of asked r d in
              if not (holds_text (get_field d "token_hash") (t.hash_token token))
              then err permission_error
              else identity
        ]

    -- The record of a registration.
    unfoldable pub agent_record : Enrolment → String → String → String → EmberRecord
    agent_record e name provider model = record (default_record e.drawn_id e.recorded) {
      namespace = agents_ns;
      record_type = RecordType.document;
      content = dict (
          field "agent_id" (text e.drawn_id) (
            field "name" (text name) (
              field "provider" (text provider) (
                field "model" (text model)
                  (field "token_hash" (text (t.hash_token e.token)) end)))));
      written_by = "ember-registry";
      agent_id = some e.drawn_id;
      creation_reason = some "agent registration";
      tags = "agent" ∷ "identity" ∷ [];
    }

  -- `get`, from the record that `EmberDB.get` found.
  unfoldable pub known_identity : String → Option EmberRecord → Result (Option AgentIdentity)
  known_identity asked none = ok none
  known_identity asked (some r) =
      if not (r.namespace == agents_ns) then ok none else elim (as_dict r.content) [
        | err e ↦ err e
        | ok d ↦ elim (identity_of asked r d) [ err e ↦ err e | ok x ↦ ok (some x) ]
      ]

module _ ⦃h : Hashing⦄ ⦃i : IsoFormat⦄ where
  -- `AgentRegistry.get`
  unfoldable pub registry_get : String → Exec Engine (Option AgentIdentity)
  registry_get asked = do
    found ← (λ s. (get s.disk true true asked, s))
    lift (known_identity asked found)

  module _ ⦃t : TokenDigest⦄ where
    unfoldable pub authenticate : String → String → Exec Engine AgentIdentity
    authenticate asked token = do
      found ← (λ s. (get s.disk false false asked, s))
      lift (check_token asked token found)

    unfoldable pub register :
        ⦃m : TextMethods⦄
        → ⦃c : Encoding⦄ → Bool
        → StorageLimits
        → Enrolment
        → String
        → String
        → String
        → Exec Engine (AgentIdentity × String)
    register ⦃m = m⦄ ⦃c = c⦄ enforce limits e name provider model = do
      raise_if ((name == "") || (m.strip name == "")) value_error
      id ← db_write enforce limits e.write_draw (agent_record e (m.strip name) provider model)
      let identity : AgentIdentity = record {
        agent_id = e.drawn_id;
        name = m.strip name;
        provider = provider;
        model = model;
        created_at = i.isoformat e.now;
      }
      pure (identity, e.token)
