-- ===== src/Identity/Registered.antt =====
-- An agent that was registered (embers/identity/registry.py).
use embers_diaries.Prelude.{
  String, Bool, false, some, ◌≡◌, refl, arith, ◌∙◌, ap, sym, ◌==◌, ◌||◌, if◌then◌else◌, Bool-cases,
  inl, inr,
}
use embers_diaries.Core.Record.{EmberRecord, Hashing}
use embers_diaries.Core.Result.{permission_error, ok, err, Result-cases, then_pure}
use embers_diaries.Storage.{Disk, Encoding, StorageLimits, WriteDraw}
use embers_diaries.Engine.State.{Engine}
use embers_diaries.Engine.Writer.{write}
use embers_diaries.Engine.Reader.{get, overlay, with_deprecated, with_successor, with_access}
use embers_diaries.Database.Fields.{IsoFormat, get_field, as_dict, text_at}
use embers_diaries.Database.Versions.{Body, body-overlay}
use embers_diaries.Lobby.Store.{TextMethods}
use embers_diaries.Identity.Registry.{
  AgentIdentity, Enrolment, TokenDigest, agents_ns, agent_record, check_token, identity_of,
  register, db_write, authenticate, validate_provenance,
}
use embers_diaries.Engine.ReadBack.{with_hash}
use embers_diaries.Engine.Written.{write-IsLatest, get-IsLatest}
use embers_diaries.Engine.Sound.{IsSound}

module _ ⦃h : Hashing⦄ ⦃c : Encoding⦄ (limits : StorageLimits) where
  -- A record that was just written is shown by `get`, under its overlays.
  get-write :
      (w : WriteDraw) (r : EmberRecord) (s t : Engine) (id : String)
      → IsSound s.disk
      → write limits w r s ≡ (ok id, t)
      → get t.disk false false r.id ≡ ok (some (overlay t.disk r.id (with_hash r)))
  get-write w r s t id sound p =
      get-IsLatest false false t.disk (with_hash r) (write-IsLatest limits w r s t id p sound)

created_at-overlay :
    (d : Disk) (id : String) (r : EmberRecord) → (overlay d id r).created_at ≡ r.created_at
unfolding overlay with_deprecated with_successor with_access
created_at-overlay d id r = ground arith

module _ ⦃h : Hashing⦄ ⦃i : IsoFormat⦄ ⦃t : TokenDigest⦄ where
  -- What `authenticate` says of the record of a registration.
  check_token-agent_record :
      (e : Enrolment) (name provider model asked : String) (o : EmberRecord)
      → o.namespace ≡ agents_ns
      → o.content ≡ (agent_record e name provider model).content
      → o.created_at ≡ e.recorded
      → check_token e.drawn_id asked (some o) ≡ (
          if t.hash_token e.token == t.hash_token asked
          then ok (record {
            agent_id = e.drawn_id;
            name = name;
            provider = provider;
            model = model;
            created_at = i.isoformat e.recorded;
          })
          else err permission_error)
  unfolding check_token agent_record identity_of as_dict text_at get_field
  check_token-agent_record e name provider model asked o p q r = rw (p, q, r) (ground arith)

  module _ ⦃m : TextMethods⦄ ⦃c : Encoding⦄ (enforce : Bool) (limits : StorageLimits) where
    -- What returning from `register` says.
    register_steps :
        (e : Enrolment) (name provider model token : String) (identity : AgentIdentity)
        (s u : Engine)
        → register enforce limits e name provider model s ≡ (ok (identity, token), u)
        → (id : String) × (write limits e.write_draw
              (agent_record e (m.strip name) provider model)
              s
            ≡ (ok id, u))
          × (identity ≡ record {
            agent_id = e.drawn_id;
            name = m.strip name;
            provider = provider;
            model = model;
            created_at = i.isoformat e.now;
          })
          × (token ≡ e.token)
    unfolding register db_write
    register_steps e name provider model token identity s u p =
        let r = agent_record e (m.strip name) provider model in
        let issued : AgentIdentity × String = (
          record {
            agent_id = e.drawn_id;
            name = m.strip name;
            provider = provider;
            model = model;
            created_at = i.isoformat e.now;
          },
          e.token,
        ) in
        elim (Bool-cases ((name == "") || (m.strip name == ""))) [
          | inl b ↦ absurd (ground (arith, rw b at p))
          | inr b ↦ elim (Result-cases (validate_provenance r.written_by r.agent_id enforce)) [
            | inr (w, v) ↦ absurd (ground (arith, rw (b, v) at p))
            | inl (tt, v) ↦
                let (id, done, same) =
                  then_pure (write limits e.write_draw r s) (λ id. issued) (identity, token) u
                    (rw (b, v) at p) in
                (id, done, ap (λ x. x.0) (sym same), ap (λ x. x.1) (sym same))
          ]
        ]

    authenticate-found :
        (id asked : String) (o : EmberRecord) (u : Engine)
        → get u.disk false false id ≡ ok (some o)
        → authenticate id asked u ≡ (check_token id asked (some o), u)
    unfolding authenticate
    authenticate-found id asked o u p = rw p refl

    -- The agent that a call of `register` returned is authenticated by every token whose digest is that
    -- of the token that was returned, as the identity that was returned, but for the time, which is that
    -- of its record; any other token is refused. The disk before the call was sound.
    pub register-authenticate :
        (e : Enrolment) (name provider model token : String) (identity : AgentIdentity)
        (s u : Engine)
        → IsSound s.disk
        → register enforce limits e name provider model s ≡ (ok (identity, token), u)
        → (asked : String)
        → authenticate identity.agent_id asked u ≡ (
            if t.hash_token token == t.hash_token asked
            then (ok (record identity { created_at = i.isoformat e.recorded }), u)
            else (err permission_error, u))
    unfolding agent_record
    register-authenticate e name provider model token identity s u sound p asked =
        let (id, done, same, drawn) = register_steps e name provider model token identity s u p in
        let r = agent_record e (m.strip name) provider model in
        let o = overlay u.disk e.drawn_id (with_hash r) in
        let shape = body-overlay u.disk e.drawn_id (with_hash r) in
        let checked =
          check_token-agent_record e (m.strip name) provider model asked o
            (ap (λ (x : Body). x.2) shape) (ap (λ (x : Body). x.1) shape)
            (created_at-overlay u.disk e.drawn_id (with_hash r)) in
        ap (λ (x : AgentIdentity). authenticate x.agent_id asked u) same
        ∙ authenticate-found e.drawn_id asked o u
            (get-write limits e.write_draw r s u id sound done)
        ∙ rw (checked, same, drawn)
            (elim (Bool-cases (t.hash_token e.token == t.hash_token asked)) [
              | inl b ↦ rw b refl
              | inr b ↦ rw b refl
            ])
