-- ===== src/Database/Session/Revising.antt =====
-- Revisions of a session that was read before (embers/db.py).
use embers_diaries.Prelude.{
  String, true, false, none, some, ◌≡◌, refl, arith, ◌∙◌, ap, sym, not, ◌==◌, select, inl, inr,
  Bool-cases, subst,
}
use embers_diaries.Core.Types.{RecordType, type_value}
use embers_diaries.Core.Record.{EmberRecord, Hashing}
use embers_diaries.Core.Result.{value_error, Result-cases, ok, err, then_pure}
use embers_diaries.Storage
use embers_diaries.Storage.{Disk, Encoding, StorageLimits}
use embers_diaries.Engine.State.{Engine, UpdateDraw}
use embers_diaries.Engine.Writer.{update}
use embers_diaries.Engine.Reader.{get_current}
use embers_diaries.Engine.Sound.{IsSound}
use embers_diaries.Database.Fields.{IsoFormat}
use embers_diaries.Database.Versions.{is_of_type, Body, update-Revised}
use embers_diaries.Database.Session.Payload.{
  Session, status_value, is_open, payload, from_record, validate_session_activity,
}
use embers_diaries.Database.Session.Operations.{
  Spare, get_session, require_session, update_session, revision, log_in_session,
}
use embers_diaries.Database.Session.RoundTrip.{IsShown, from_record-payload}
use embers_diaries.Database.Session.Outline.{from_record-outline}

module _ ⦃h : Hashing⦄ ⦃i : IsoFormat⦄ where
  -- The current version that a session is read from.
  pub record Source (d : Spare) (id : String) (x : Session) (s : Engine) (head : EmberRecord)
      : Type 0 where
    current : get_current s.disk id ≡ ok (some head)
    typed : is_of_type RecordType.session head ≡ true
    parsed : from_record d.spare_id d.spare_time head ≡ ok x

  -- A session that is found has a current version, when an update of it has one.
  Source-get_session :
      (d : Spare) (id : String) (x : Session) (s : Engine) (head : EmberRecord)
      → get_session d id s ≡ (ok (some x), s)
      → get_current s.disk id ≡ ok (some head)
      → Source d id x s head
  unfolding get_session
  Source-get_session d id x s head p q = elim (Bool-cases (is_of_type RecordType.session head)) [
    | inr e ↦ absurd (ground (arith, rw (q, e) at p))
    | inl e ↦ elim (Result-cases (from_record d.spare_id d.spare_time head)) [
      | inr (w, f) ↦ absurd (ground (arith, rw (q, e, f) at p))
      | inl (y, f) ↦
          let same : y ≡ x = ground (arith, rw (q, e, f) at p) in
          record { current = q; typed = e; parsed = f ∙ ap ok same }
    ]
  ]

  pub get_session-Source :
      (d : Spare) (id : String) (x : Session) (s : Engine) (head : EmberRecord)
      → Source d id x s head
      → get_session d id s ≡ (ok (some x), s)
  unfolding get_session
  get_session-Source d id x s head p = rw (p.current, p.typed, p.parsed) refl

  module _ ⦃c : Encoding⦄ (limits : StorageLimits) where
    -- What returning from `_update_session` says.
    update_session_steps :
        (u : UpdateDraw) (x : Session) (changed_by reason new_id : String) (s t : Engine)
        → update_session limits u x changed_by reason s ≡ (ok new_id, t)
        → (head : EmberRecord) × (get_current s.disk x.session_id ≡ ok (some head))
          × (is_of_type RecordType.session head ≡ true)
          × (ids : String × String) × (update limits u head.id
                (payload x)
                (revision changed_by reason)
                s
              ≡ (ok ids, t))
          × (ids.0 ≡ new_id)
    unfolding update_session
    update_session_steps u x changed_by reason new_id s t p =
        elim (Result-cases (get_current s.disk x.session_id)) [
          | inr (e, f) ↦ absurd (ground (arith, rw f at p))
          | inl (none, f) ↦ absurd (ground (arith, rw f at p))
          | inl (some head, f) ↦ elim (Bool-cases (is_of_type RecordType.session head)) [
            | inr e ↦ absurd (ground (arith, rw (f, e) at p))
            | inl e ↦
                let (ids, r, q) =
                  then_pure (update limits u head.id (payload x) (revision changed_by reason) s)
                    (λ (x : String × String). x.0) new_id t (rw (f, e) at p) in
                (head, f, e, ids, r, q)
          ]
        ]

    pub update_session-Source :
        (d : Spare) (u : UpdateDraw) (id : String) (x y : Session) (changed_by reason : String)
        (new_id : String) (s t : Engine)
        → IsSound s.disk
        → Storage.exists u.new_id s.disk ≡ false
        → IsShown y
        → y.session_id ≡ id
        → y.namespace ≡ x.namespace
        → y.tags ≡ x.tags
        → get_session d id s ≡ (ok (some x), s)
        → update_session limits u y changed_by reason s ≡ (ok new_id, t)
        → IsSound t.disk × (now : EmberRecord) × Source d id y t now
    update_session-Source d u id x y changed_by reason new_id s t sound fresh shown named ns tags p
          q =
        let (head, current, typed, ids, updated, _) =
          update_session_steps u y changed_by reason new_id s t q in
        let current : get_current s.disk id ≡ ok (some head) =
          subst (λ k. get_current s.disk k ≡ ok (some head)) named current in
        let before = Source-get_session d id x s head p current in
        let (_, after) =
          update-Revised limits u id (payload y) (revision changed_by reason) head s t ids sound
            fresh refl current updated in
        let (in_space, tagged) = from_record-outline d.spare_id d.spare_time head x before.parsed in
        let now = after.now in
        (
          after.sound,
          now,
          record {
            current = after.current;
            typed =
                ap (λ (b : Body). type_value b.4 == type_value RecordType.session) after.revised
                ∙ typed;
            parsed =
                from_record-payload d.spare_id d.spare_time y now shown
                  (ap (λ (b : Body). b.1) after.revised)
                  (ap (λ (b : Body). b.2) after.revised ∙ in_space ∙ sym ns)
                  (ap (λ (b : Body). select (λ t. not (t == "session")) b.3) after.revised
                    ∙ tagged
                    ∙ sym tags);
          },
        )

    -- What a session must keep for its revision to be its own: its id, namespace and tags.
    abbrev pub Keeps : Session → Session → Type 0
    Keeps x y = (y.session_id ≡ x.session_id) × (y.namespace ≡ x.namespace) × (y.tags ≡ x.tags)

    -- A session that was read is written back as `log_in_session` does, and read again.
    pub log_in_session-get_session :
        (d : Spare) (u : UpdateDraw) (id : String) (change : Session → Session) (x : Session)
        (changed_by reason new_id : String) (s t : Engine)
        → IsSound s.disk
        → Storage.exists u.new_id s.disk ≡ false
        → IsShown (change x)
        → x.session_id ≡ id
        → Keeps x (change x)
        → get_session d id s ≡ (ok (some x), s)
        → log_in_session limits d u id change changed_by reason s ≡ (ok new_id, t)
        → (is_open x ≡ true) × IsSound t.disk × (get_session d id t ≡ (ok (some (change x)), t))
    unfolding log_in_session require_session validate_session_activity is_open
    log_in_session-get_session d u id change x changed_by reason new_id s t sound fresh shown named
          keeps p q =
        elim (Bool-cases (status_value x.status == "active")) [
          | inr e ↦ absurd (ground (arith, rw (p, e) at q))
          | inl e ↦
              let (after, now, source) =
                update_session-Source d u id x (change x) changed_by reason new_id s t sound fresh
                  shown (keeps.0 ∙ named) keeps.1 keeps.2 p (rw (p, e) at q) in
              (e, after, get_session-Source d id (change x) t now source)
        ]

    -- A session that is not open takes no entry: nothing is written.
    pub log_in_session_closed :
        (d : Spare) (u : UpdateDraw) (id : String) (change : Session → Session) (x : Session)
        (changed_by reason : String) (s : Engine)
        → is_open x ≡ false
        → get_session d id s ≡ (ok (some x), s)
        → log_in_session limits d u id change changed_by reason s ≡ (err value_error, s)
    unfolding log_in_session require_session validate_session_activity is_open
    log_in_session_closed d u id change x changed_by reason s closed p = rw (p, closed) refl
