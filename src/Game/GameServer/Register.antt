-- ===== src/Game/GameServer/Register.antt =====
-- A client registers: it is told its identifier, everybody is told of it, and it of everybody.
use networking_projects.Prelude.{
  ◌>>=◌, ℕ, ◌<◌, ◌≡◌, ◌↔◌, refl, sym, ap, ◌∙◌, inl, inr, true, List, [], ◌∷◌, ◌++◌, map, append-nil,
  append_assoc, none, some, some≢none, length, get_elem?, Option-cases, ==_refl,
}
use networking_projects.Message.{Message, pull}
use networking_projects.Message.Laws.{pull-none_iff}
use networking_projects.Connection.{get_id}
use networking_projects.Connection.Types.{Connection, Action, post_send}
use networking_projects.Server.{can_talk}
use networking_projects.Server.Broadcast.{
  recipients, survivors, reports, sends_to, message_all_clients_lem, message_client-alive,
  can_talk-open,
}
use networking_projects.Game.Common.{GameMsg, PlayerDescription, client_register_with_server}
use networking_projects.Game.GameServer.{
  GameState, GamePlatform, GameServer, hooks, tell_all, insert_or_assign, assign_id, add_player,
  send_roster, register, handle, on_message,
}
use networking_projects.Game.GameServer.Relay.{nothing_to_collect}

module _ {F : Type 0} (platform : GamePlatform F) where
  open platform use {base, desc}

  -- One message for each player of the roster, in order.
  abbrev pub introductions : ℕ → List (ℕ × PlayerDescription F) → List (ℕ × Action GameMsg)
  introductions p = map (λ (id, d). (p, post_send (add_player platform d)))

  send_roster-alive :
      (players : List (ℕ × PlayerDescription F)) (s : GameServer platform) (p : ℕ)
      → can_talk base (hooks platform) s.heap (some p) ≡ true
      → send_roster platform s (some p) players
        ≡ some (record s { posted = s.posted ++ introductions p players })
  unfolding send_roster
  send_roster-alive [] s p alive =
      ap (λ l. some (record s { posted = l })) (sym (append-nil s.posted))
  send_roster-alive ((id, d) ∷ players) s p alive =
      let s' = record s { posted = s.posted ++ (p, post_send (add_player platform d)) ∷ [] } in
      rw
        (
          message_client-alive base (hooks platform) s p (add_player platform d) alive,
          ==_refl (length s.user.player_roster),
        )
        (send_roster-alive players s' p alive
          ∙ ap (λ l. some (record s { posted = l }))
              (append_assoc s.posted _ (introductions p players)))

  -- The player's description, with the identifier that the server gave its connection.
  abbrev pub described : Connection GameMsg → PlayerDescription F → PlayerDescription F
  described c d = record d { unique_id = c.id }

  abbrev pub enrolled : GameState F → Connection GameMsg → PlayerDescription F → GameState F
  enrolled g c d = record g {
    player_roster = insert_or_assign c.id (described c d) g.player_roster;
  }

  -- The state after the registration of `d` by the live client at `p`, whose connection is `c`.
  abbrev pub registered :
      GameServer platform → ℕ → Connection GameMsg → PlayerDescription F → GameServer platform
  registered s p c d =
      let user = reports base (hooks platform) s.heap (enrolled s.user c d) s.connections in
      record s {
        posted =
            ((s.posted ++ (p, post_send (assign_id platform c.id)) ∷ [])
              ++ sends_to base (hooks platform) (add_player platform (described c d))
                  (recipients base (hooks platform) s.heap none s.connections))
            ++ introductions p user.player_roster;
        user = user;
        connections = survivors base (hooks platform) s.heap s.connections;
      }

  pub register-alive :
      (s : GameServer platform) (p : ℕ) (c : Connection GameMsg) (msg rest : Message GameMsg)
      (d : PlayerDescription F)
      → get_elem? s.heap p ≡ some c
      → c.socket_open ≡ true
      → pull desc msg ≡ some (rest, d)
      → register platform s (some p) msg ≡ some (registered s p c d)
  unfolding register get_id
  register-alive s p c msg rest d at_p is_open pulled =
      let alive = can_talk-open base (hooks platform) s.heap p c at_p is_open in
      let s' = record s { user = enrolled s.user c d } in
      let assigned = record s' {
        posted = s.posted ++ (p, post_send (assign_id platform c.id)) ∷ [];
      } in
      rw (pulled, at_p)
        (ap (λ (t : GameServer platform). send_roster platform t (some p) t.user.player_roster)
            (ap (λ t. tell_all platform t (add_player platform (described c d)) none)
                (message_client-alive base (hooks platform) s' p (assign_id platform c.id) alive)
              ∙ message_all_clients_lem base (hooks platform) assigned
                  (add_player platform (described c d)) none)
          ∙ send_roster-alive _ _ p alive)

  -- A registration by a connected client, when no departed player waits to be announced and the
  -- body holds a description: the client is posted its identifier; every connected client of the
  -- container, the new one among them, is posted the description under that identifier; then the
  -- client is posted every player of the roster. The roster holds the player under its identifier,
  -- less the players of clients found dead, which leave the container. Nothing is undefined.
  pub on_message_register :
      (s : GameServer platform) (p : ℕ) (c : Connection GameMsg) (msg rest : Message GameMsg)
      (d : PlayerDescription F)
      → s.user.garbage_ids ≡ []
      → msg.header.id ≡ client_register_with_server
      → get_elem? s.heap p ≡ some c
      → c.socket_open ≡ true
      → pull desc msg ≡ some (rest, d)
      → on_message platform s (some p) msg ≡ some (registered s p c d)
  unfolding on_message
  on_message_register s p c msg rest d none_waits is_registration at_p is_open pulled =
      ap (λ o. o >>= λ t. handle platform t (some p) msg msg.header.id)
        (nothing_to_collect platform s none_waits)
      ∙ ap (handle platform s (some p) msg) is_registration
      ∙ register-alive s p c msg rest d at_p is_open pulled

  register-short :
      (s : GameServer platform) (p : ℕ) (msg : Message GameMsg)
      → pull desc msg ≡ none
      → register platform s (some p) msg ≡ none
  unfolding register
  register-short s p msg short = rw short refl

  -- A registration by a connected client, when no departed player waits to be announced, is undefined
  -- exactly if the body that the client sent is shorter than a description: its length is never
  -- checked.
  pub on_message_register-none_iff :
      (s : GameServer platform) (p : ℕ) (c : Connection GameMsg) (msg : Message GameMsg)
      → s.user.garbage_ids ≡ []
      → msg.header.id ≡ client_register_with_server
      → get_elem? s.heap p ≡ some c
      → c.socket_open ≡ true
      → (on_message platform s (some p) msg ≡ none) ↔ (length msg.body < desc.size)
  unfolding on_message register
  on_message_register-none_iff s p c msg none_waits is_registration at_p is_open = (
    λ undefined. elim (Option-cases (pull desc msg)) [
      | inl short ↦ (pull-none_iff desc msg).0 short
      | inr ((rest, d), pulled) ↦ absurd (
          some≢none (
            sym
              (on_message_register s p c msg rest d none_waits is_registration at_p is_open pulled)
            ∙ undefined))
    ],
    λ short.
        ap (λ o. o >>= λ t. handle platform t (some p) msg msg.header.id)
          (nothing_to_collect platform s none_waits)
        ∙ ap (handle platform s (some p) msg) is_registration
        ∙ register-short s p msg ((pull-none_iff desc msg).1 short),
  )
