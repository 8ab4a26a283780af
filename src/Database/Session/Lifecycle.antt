-- ===== src/Database/Session/Lifecycle.antt =====
-- The life of a session through the operations of embers/db.py.
use embers_diaries.Prelude.{
  String, true, false, some, ◌≡◌, ◌≢◌, refl, arith, ◌==◌, [], ◌∷◌, ◌++◌, member, inl, inr,
  if◌then◌else◌,
}
use embers_diaries.Core.Types.{SessionStatus}
use embers_diaries.Core.Record.{Time, Hashing}
use embers_diaries.Core.Result.{value_error, Result-cases, ok, err}
use embers_diaries.Storage
use embers_diaries.Storage.{Disk, Encoding, StorageLimits}
use embers_diaries.Engine.State.{Engine, UpdateDraw}
use embers_diaries.Engine.Sound.{IsSound}
use embers_diaries.Database.Fields.{IsoFormat}
use embers_diaries.Database.Session.Payload.{
  Session, status_value, is_open, validate_session_transition,
}
use embers_diaries.Database.Session.Operations.{
  Spare, get_session, require_session, log_in_session, record_discovery, record_failure,
  record_memory_write, end_session, closing_reason,
}
use embers_diaries.Database.Session.Revising.{
  update_session-Source, get_session-Source, log_in_session-get_session, log_in_session_closed,
}
use embers_diaries.Database.Session.RoundTrip.{IsShown}

-- What `end_session` leaves of a session that is open, with a closing status.
abbrev pub closed_session : Session → Time → String → SessionStatus → Session
closed_session x now summary status = record x {
  status = status;
  ended_at = some now;
  summary = if summary == "" then x.summary else summary;
}

-- What the transition needs.
transition_ok :
    (current : String) (status : SessionStatus)
    → validate_session_transition current (status_value status) ≡ ok tt
    → ((current == "active") ≡ true)
      × (status ≢ SessionStatus.active)
      × ((status_value status == "active") ≡ false)
unfolding validate_session_transition status_value
transition_ok current SessionStatus.active p = absurd (ground (arith, p))
transition_ok current SessionStatus.completed p = (ground (arith, p), ground arith, refl)
transition_ok current SessionStatus.abandoned p = (ground (arith, p), ground arith, refl)

module _ ⦃h : Hashing⦄ ⦃i : IsoFormat⦄ ⦃c : Encoding⦄ (limits : StorageLimits) where
  -- A discovery that `record_discovery` returns from is among those of the session that is read next: it
  -- is the last one, or where it was there before the list is as it was. Nothing else of the session
  -- differs. The session was read before from the current
  -- version of a sound disk, has its own id as its key and times that can be read back; the id
  -- drawn for the new version is not in use.
  pub record_discovery-get_session :
      (d : Spare) (u : UpdateDraw) (id discovery_id changed_by new_id : String) (x : Session)
      (s t : Engine)
      → IsSound s.disk
      → Storage.exists u.new_id s.disk ≡ false
      → IsShown x
      → x.session_id ≡ id
      → get_session d id s ≡ (ok (some x), s)
      → record_discovery limits d u id discovery_id changed_by s ≡ (ok new_id, t)
      → (is_open x ≡ true)
        × IsSound t.disk
        × (get_session d id t ≡ (
          ok (
              some (record x {
                discoveries =
                    if member discovery_id x.discoveries
                    then x.discoveries
                    else x.discoveries ++ discovery_id ∷ [];
              })),
          t,
        ))
  unfolding record_discovery
  record_discovery-get_session d u id discovery_id changed_by new_id x s t sound fresh shown named p
        q =
      log_in_session-get_session limits d u id _ x changed_by _ new_id s t sound fresh shown named
        (refl, refl, refl) p q

  end_session_closed :
      (d : Spare) (u : UpdateDraw) (now : Time) (id summary changed_by : String)
      (status : SessionStatus) (x : Session) (s : Engine)
      → is_open x ≡ false
      → get_session d id s ≡ (ok (some x), s)
      → end_session limits d u now id summary status changed_by s ≡ (err value_error, s)
  unfolding end_session require_session validate_session_transition is_open
  end_session_closed d u now id summary changed_by status x s closed p = rw (p, closed) refl

  end_session-Source :
      (d : Spare) (u : UpdateDraw) (now : Time) (id summary changed_by new_id : String)
      (status : SessionStatus) (x : Session) (s t : Engine)
      → IsSound s.disk
      → Storage.exists u.new_id s.disk ≡ false
      → IsShown (closed_session x now summary status)
      → x.session_id ≡ id
      → get_session d id s ≡ (ok (some x), s)
      → end_session limits d u now id summary status changed_by s ≡ (ok new_id, t)
      → (validate_session_transition (status_value x.status) (status_value status) ≡ ok tt)
        × IsSound t.disk
        × (get_session d id t ≡ (ok (some (closed_session x now summary status)), t))
  unfolding end_session require_session
  end_session-Source d u now id summary changed_by new_id status x s t sound fresh shown named p q =
      elim (Result-cases
        (validate_session_transition (status_value x.status) (status_value status))) [
          | inr (e, f) ↦ absurd (ground (arith, rw (p, f) at q))
          | inl (tt, f) ↦
              let y = closed_session x now summary status in
              let (after, head, source) =
                update_session-Source limits d u id x y changed_by (closing_reason status) new_id s
                  t sound fresh shown named refl refl p (rw (p, f) at q) in
              (f, after, get_session-Source d id y t head source)
        ]

  -- When `end_session` returns, the session was open and the status is completed or abandoned; the
  -- session that is read next has the status, the end and, unless it was empty, the summary that were
  -- given, and is closed: in the state that is left, `record_discovery`, `record_failure`,
  -- `record_memory_write` and `end_session` raise a value error and change nothing. The session was read before from the
  -- current version of a sound disk, has its own id as its key and times that can be read back, as
  -- can the end; the id drawn for the new version is not in use.
  pub end_session-closed_session :
      (d : Spare) (u : UpdateDraw) (now : Time) (id summary changed_by new_id : String)
      (status : SessionStatus) (x : Session) (s t : Engine)
      → IsSound s.disk
      → Storage.exists u.new_id s.disk ≡ false
      → IsShown (closed_session x now summary status)
      → x.session_id ≡ id
      → get_session d id s ≡ (ok (some x), s)
      → end_session limits d u now id summary status changed_by s ≡ (ok new_id, t)
      → (is_open x ≡ true)
        × IsSound t.disk
        × (status ≢ SessionStatus.active)
        × (get_session d id t ≡ (ok (some (closed_session x now summary status)), t))
        × ((v : UpdateDraw) (entry by : String)
            → (record_discovery limits d v id entry by t ≡ (err value_error, t))
              × (record_failure limits d v id entry by t ≡ (err value_error, t))
              × (record_memory_write limits d v id entry by t ≡ (err value_error, t)))
        × ((v : UpdateDraw) (later : Time) (text by : String) (next : SessionStatus)
            → end_session limits d v later id text next by t ≡ (err value_error, t))
  unfolding record_discovery record_failure record_memory_write is_open
  end_session-closed_session d u now id summary changed_by new_id status x s t sound fresh shown
        named p q =
      let (valid, after, read) =
        end_session-Source d u now id summary changed_by new_id status x s t sound fresh shown named
          p q in
      let (opened, moved, closed) = transition_ok (status_value x.status) status valid in
      let y = closed_session x now summary status in
      let refused : (v : UpdateDraw) (change : Session → Session) (by reason : String)
          → log_in_session limits d v id change by reason t ≡ (err value_error, t) =
        λ v change by reason.
          log_in_session_closed limits d v id change y by reason t closed read in
      (
        opened,
        after,
        moved,
        read,
        λ v entry by. (refused v _ by _, refused v _ by _, refused v _ by _),
        λ v later text by next. end_session_closed d v later id text by next y t closed read,
      )
