-- ===== src/Lobby/Posting.antt =====
-- Who sits where after `publish` and `corroborate` of embers/lobby/store.py.
use embers_diaries.Prelude.{String, true, Option, [], ◌∷◌, ◌++◌, ◌≡◌, refl, inl, inr, Bool-cases}
use embers_diaries.Core.Record.{Time}
use embers_diaries.Core.Result.{Exec, pure, modify, ◌>>=◌, ◌>>◌}
use embers_diaries.Core.Triples.{Triple, Triple_then}
use embers_diaries.Lobby.Board.{Agent, Board, Post, has_room, is_same, has_corroborated, amend_post}
use embers_diaries.Lobby.Store.{
  LobbyStore, Moments, TextMethods, save, require_board, check_capacity, enter, normal, emit,
  post_published, post_corroborated,
}
use embers_diaries.Lobby.Operations.{
  require_post, publish, add_corroboration, corroborate, is_refused, new_post, append_post,
}
use embers_diaries.Lobby.Membership.{
  Seated, At, save-At, require_board-Triple, check_capacity-Triple, save-Triple,
}
use embers_diaries.Lobby.Entering.{enter-Triple, At-Ready}
use embers_diaries.Lobby.Calls.{Kept, require_post-Triple}

pub seat_known : (sid : String) (b : Board) (s : LobbyStore) → At sid b s → Seated s
seat_known sid b s k = k.0

module _ {A : Type 0} (now : Time) (sid agent : String) (b : Board)
    (after : Exec LobbyStore A) where
  -- A session enters the board where it has its seat, and what follows keeps the seats.
  entered :
      Triple Seated after Kept Seated
      → Triple (At sid b) (enter now sid agent b >>= λ _. after) Kept Seated
  entered t =
      Triple_then (At sid b) (At sid) Kept Seated (enter now sid agent b) _
        (λ s k. enter-Triple now sid agent b s (At-Ready sid b s k)) (λ c s k. t s k.0)

  -- The room is checked first.
  checked-entered :
      Triple Seated after Kept Seated
      → Triple
          (At sid b)
          (check_capacity b sid >> (enter now sid agent b >>= λ _. after))
          Kept
          Seated
  checked-entered t =
      Triple_then (At sid b) (λ _ s. At sid b s × (has_room s.config b sid ≡ true)) Kept Seated
        (check_capacity b sid) _ (check_capacity-Triple (At sid b) b sid (seat_known sid b))
        (λ _ s k. entered t s k.0)

append_post-Seated :
    (m : Moments) (sid agent : String) (b : Board) (post : Post)
    → Triple (At sid b) (append_post m sid agent b post) Kept Seated
unfolding append_post
append_post-Seated m sid agent b post =
    let posted = record b { posts = b.posts ++ post ∷ [] } in
    Triple_then (At sid b) (λ _. At sid posted) Kept Seated (modify (save posted)) _
      (save-Triple sid b posted refl refl refl)
      (λ _.
        checked-entered m.seen sid agent posted
          (modify (emit m.emitted b.board_id "lobby.post_published" (post_published post))
            >> pure post)
          (λ s k. k))

module _ ⦃text : TextMethods⦄ where
  pub publish-Seated :
      (m : Moments) (id sid agent room kind content : String) (approach : Option String)
      → Triple Seated (publish m id sid agent room kind content approach) Kept Seated
  unfolding publish
  publish-Seated m id sid agent room kind content approach =
      Triple_then Seated (At sid) Kept Seated (require_board m.checked sid) _
        (require_board-Triple m.checked sid)
        (λ b s k.
          let post =
            new_post m id sid agent b (normal room) (normal kind) (text.strip content) approach in
          elim (Bool-cases
            (is_refused s.config b (normal room) (normal kind) (text.strip content))) [
              | inl e ↦ rw e k.0
              | inr e ↦ rw e (append_post-Seated m sid agent b post s k)
            ])

add_corroboration-Seated :
    (m : Moments) (who : Agent) (b : Board) (post : Post)
    → Triple (At who.session b) (add_corroboration m who b post) Kept Seated
unfolding add_corroboration
add_corroboration-Seated m who b post =
    let done = record post {
      corroborations =
          post.corroborations ++ record { by_agent = who; corroborated_at = m.made } ∷ [];
    } in
    let c = record b { posts = amend_post post.post_id (λ p. done) b.posts } in
    Triple_then (At who.session b)
      (λ _ s. At who.session b s × (has_room s.config b who.session ≡ true)) Kept Seated
      (check_capacity b who.session) _
      (check_capacity-Triple (At who.session b) b who.session (seat_known who.session b))
      (λ _.
        Triple_then (λ s. At who.session b s × (has_room s.config b who.session ≡ true))
          (λ _. At who.session c) Kept Seated (modify (save c)) _
          (λ s k. save-At who.session b c s refl refl refl k.0)
          (λ _.
            entered m.seen who.session who.agent c
              (modify
                  (emit m.emitted b.board_id "lobby.post_corroborated" (post_corroborated done who))
                >> pure done)
              (λ s k. k)))

pub corroborate-Seated :
    (m : Moments) (sid agent post_id : String)
    → Triple Seated (corroborate m sid agent post_id) Kept Seated
unfolding corroborate
corroborate-Seated m sid agent post_id =
    let who : Agent = record { agent = agent; session = sid } in
    Triple_then Seated (λ (found : Board × Post). At sid found.0) Kept Seated
      (require_post m sid post_id) _ (require_post-Triple m sid post_id)
      (λ found s k. elim (Bool-cases (is_same found.1.author who)) [
        | inl e ↦ rw e k.0
        | inr e ↦ elim (Bool-cases (has_corroborated who found.1)) [
          | inl f ↦ rw (e, f) k.0
          | inr f ↦ rw (e, f) (add_corroboration-Seated m who found.0 found.1 s k)
        ]
      ])
