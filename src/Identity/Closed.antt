-- ===== src/Identity/Closed.antt =====
-- Requests of a session that has ended (embers/api/session_gate.py).
use embers_diaries.Prelude.{String, false, Option, some, ◌≡◌, ◌≢◌, refl, ◌==◌, ◌&&◌, ◌⊎◌, inl, inr}
use embers_diaries.Core.Types.{SessionStatus}
use embers_diaries.Core.Record.{Time, Hashing}
use embers_diaries.Core.Result.{permission_error, ok, err}
use embers_diaries.Storage
use embers_diaries.Storage.{Encoding, StorageLimits}
use embers_diaries.Engine.State.{Engine, UpdateDraw}
use embers_diaries.Engine.Sound.{IsSound}
use embers_diaries.Database.Fields.{IsoFormat}
use embers_diaries.Database.Session.Payload.{Session, is_open, status_value}
use embers_diaries.Database.Session.Operations.{Spare, get_session, end_session}
use embers_diaries.Database.Session.RoundTrip.{IsShown}
use embers_diaries.Database.Session.Lifecycle.{end_session-closed_session, closed_session}
use embers_diaries.Identity.Registry.{TokenDigest}
use embers_diaries.Identity.Gate.{resolve_agent, agent_of_session, is_given}

shut :
    (x : Session) (now : Time) (summary : String) (status : SessionStatus)
    → status ≢ SessionStatus.active
    → is_open (closed_session x now summary status) ≡ false
unfolding is_open status_value
shut x now summary SessionStatus.active moved = absurd (moved refl)
shut x now summary SessionStatus.completed moved = refl
shut x now summary SessionStatus.abandoned moved = refl

module _ ⦃h : Hashing⦄ ⦃i : IsoFormat⦄ ⦃k : TokenDigest⦄ where
  agent_of_session_refused :
      (d : Spare) (id : String) (x : Session) (t : Engine)
      → get_session d id t ≡ (ok (some x), t)
      → is_open x ≡ false
      → agent_of_session d id t ≡ (err permission_error, t)
  unfolding agent_of_session
  agent_of_session_refused d id x t found closed = rw (found, closed) refl

  resolve_agent_refused :
      (d : Spare) (header agent_id token session_id : Option String) (id : String) (t : Engine)
      → (is_given agent_id && is_given token) ≡ false
      → (id == "") ≡ false
      → (session_id ≡ some id) ⊎ ((is_given session_id ≡ false) × (header ≡ some id))
      → agent_of_session d id t ≡ (err permission_error, t)
      → resolve_agent d header agent_id token session_id t ≡ (err permission_error, t)
  unfolding resolve_agent
  resolve_agent_refused d header agent_id token session_id id t bare named (inl e) refused =
      rw (e, bare, named) (rw named refused)
  resolve_agent_refused d header agent_id token session_id id t bare named (inr (missing, e))
        refused =
      rw (e, bare, missing, named) refused

  module _ ⦃c : Encoding⦄ (limits : StorageLimits) where
    -- In the state that `end_session` leaves, no request gets through by that session alone: one that
    -- names it, by its argument or, where that is missing or empty, by its header, and does not give both
    -- an agent and a token is refused, and nothing changes. The session was
    -- read before from the current version of a sound disk, has its own id as its key, which is not
    -- empty, and times that can be read back; the id drawn for the new version is not in use.
    pub end_session-resolve_agent :
        (d : Spare) (u : UpdateDraw) (now : Time) (id summary changed_by new_id : String)
        (status : SessionStatus) (x : Session) (s t : Engine)
        → IsSound s.disk
        → Storage.exists u.new_id s.disk ≡ false
        → IsShown (closed_session x now summary status)
        → x.session_id ≡ id
        → (id == "") ≡ false
        → get_session d id s ≡ (ok (some x), s)
        → end_session limits d u now id summary status changed_by s ≡ (ok new_id, t)
        → (header agent_id token session_id : Option String)
        → (is_given agent_id && is_given token) ≡ false
        → (session_id ≡ some id) ⊎ ((is_given session_id ≡ false) × (header ≡ some id))
        → resolve_agent d header agent_id token session_id t ≡ (err permission_error, t)
    end_session-resolve_agent d u now id summary changed_by new_id status x s t sound fresh shown
          named given p q header agent_id token session_id bare names =
        let (_, _, moved, found, _, _) =
          end_session-closed_session limits d u now id summary changed_by new_id status x s t sound
            fresh shown named p q in
        resolve_agent_refused d header agent_id token session_id id t bare given names (
          agent_of_session_refused d id (closed_session x now summary status) t found
            (shut x now summary status moved))
