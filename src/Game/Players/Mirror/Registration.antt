-- ===== src/Game/Players/Mirror/Registration.antt =====
-- A registration, as the server of MMO_Game/src/MMO_Server.cpp and the newcomer see it.
use networking_projects.Prelude.{
  ◌>>=◌, ℕ, ◌≡◌, refl, sym, subst, ap, ◌∙◌, true, false, List, [], ◌∷◌, ◌++◌, map, append_assoc,
  some, All, get_elem?,
}
use networking_projects.Message.{Message, pull}
use networking_projects.Connection.Types.{Connection}
use networking_projects.Game.Common.{GameMsg, PlayerDescription, client_register_with_server}
use networking_projects.Game.GameServer.{
  GamePlatform, GameServer, insert_or_assign, on_message, add_player, assign_id,
}
use networking_projects.Game.GameServer.Maps.{find-insert_or_assign}
use networking_projects.Game.GameServer.Departures.{AreAlive}
use networking_projects.Game.GameServer.Arrivals.{
  registers, on_message-registers, registers-roster, registers-garbage,
}
use networking_projects.Game.GameServer.Register.{described}
use networking_projects.Game.GameClient.{GameClient, update_all}
use networking_projects.Game.GameClient.Joining.{enter_all, update_all-joins}
use networking_projects.Game.Players.{players}
use networking_projects.Game.Players.Command.{
  perform_all, message_of, after_all, update_all-after_all,
}
use networking_projects.Game.Players.Roster.{
  IsRoster, players_of, insert_or_assign-IsRoster, All-insert_or_assign,
}
use networking_projects.Game.Players.Inbox.{posted_to, times}
use networking_projects.Game.Players.Mirror.Posts.{registers-newcomer}
use networking_projects.Game.Players.Mirror.{
  gone, perform_all-nobody, told_everybody, update_all-append, Mirrors, gone-FitsIn,
  posted_to-announced,
}

module _ {F : Type 0} where
  held :
      (d : PlayerDescription F) (l l' o : List (ℕ × PlayerDescription F))
      → l' ≡ insert_or_assign d.unique_id d l
      → IsRoster l
      → o ≡ []
      → players (enter_all (players_of l') (insert_or_assign d.unique_id d o)) ≡ players l'
  held d l l' o e h nobody =
      let k = d.unique_id in
      ap (λ o. players (enter_all (players_of l') (insert_or_assign k d o))) nobody
      ∙ subst (λ l'. players (enter_all (players_of l') (insert_or_assign k d [])) ≡ players l')
          (sym e)
          (told_everybody d (insert_or_assign k d l) (insert_or_assign-IsRoster k d l refl h)
            (find-insert_or_assign k d l))

module _ {F : Type 0} (platform : GamePlatform F) where
  open platform use {base, desc, id}

  -- The numbers that a registration sends lie in the ranges of their types.
  abbrev pub Fits : GameServer platform → Connection GameMsg → PlayerDescription F → Type 0
  Fits s c d =
      All id.IsValue s.user.garbage_ids
      × id.IsValue c.id
      × desc.IsValue (described platform c d)
      × All desc.IsValue (players_of s.user.player_roster)

module _ {F : Type 0} (platform : GamePlatform F) (three zero_yaw : F) where
  open platform use {base, desc, id}

  -- When a client of any state but with an empty map gets what the server posts to it while it
  -- registers it, it knows its identifier, no longer waits, and holds the server's players.
  welcomed :
      (s : GameServer platform) (p : ℕ) (c : Connection GameMsg) (d : PlayerDescription F)
      (g : GameClient F)
      → AreAlive platform s.heap s.connections
      → times p s.connections ≡ 1
      → IsRoster s.user.player_roster
      → Fits platform s c d
      → g.map_objects ≡ []
      → (g' : GameClient F) × Mirrors platform three zero_yaw p s (registers platform s p c d) g g'
        × (g'.player_id ≡ c.id)
        × (g'.waiting_for_connection ≡ false)
  welcomed s p c d g alive once roster (gone_fit, id_fits, d_fits, fit) empty_map =
      let d' = described platform c d in
      let t = registers platform s p c d in
      let goes = map (message_of platform three zero_yaw) (gone s.user.garbage_ids) in
      let rest =
        assign_id platform c.id
        ∷ add_player platform d'
        ∷ map (add_player platform) (players_of t.user.player_roster) in
      let g1 = after_all g (gone s.user.garbage_ids) in
      let inserted = registers-roster platform s p c d alive in
      (
        record g1 {
          player_id = c.id;
          map_objects =
              enter_all (players_of t.user.player_roster) (insert_or_assign c.id d' g1.map_objects);
          waiting_for_connection = false;
        },
        (
          goes ++ rest,
          registers-newcomer platform s p c d alive once
              ∙ ap (λ l. l ++ rest) (posted_to-announced platform three zero_yaw s p alive once)
              ∙ append_assoc (posted_to p s.posted) goes rest,
          update_all-append platform three zero_yaw goes rest g
              ∙ ap (λ o. o >>= λ t. update_all platform three zero_yaw t rest)
                  (update_all-after_all platform three zero_yaw (gone s.user.garbage_ids) g
                    (gone-FitsIn platform three zero_yaw s.user.garbage_ids gone_fit))
              ∙ update_all-joins platform three zero_yaw g1 d' (players_of t.user.player_roster)
                  id_fits d_fits
                  (subst (λ l. All desc.IsValue (players_of l)) (sym inserted)
                    (All-insert_or_assign desc.IsValue c.id d' s.user.player_roster d_fits fit)),
          held d' s.user.player_roster t.user.player_roster g1.map_objects inserted roster (
              ap (perform_all (gone s.user.garbage_ids)) empty_map
              ∙ perform_all-nobody s.user.garbage_ids),
        ),
        refl,
        refl,
      )

  -- A client registers, while all clients of the container are connected and it stands there once,
  -- and its body holds a description; the roster has every player under its own identifier, once, and
  -- all numbers sent lie in the ranges of their types. Then the server's handler is defined, no
  -- departed player waits to be announced any more, and the client, if it held no player before,
  -- becomes by handling just what it is posted meanwhile a client that knows its identifier, waits no
  -- longer, and holds the same players as the server's roster.
  pub newcomer-Mirrors :
      (s : GameServer platform) (p : ℕ) (c : Connection GameMsg) (msg rest : Message GameMsg)
      (d : PlayerDescription F) (g : GameClient F)
      → AreAlive platform s.heap s.connections
      → times p s.connections ≡ 1
      → msg.header.id ≡ client_register_with_server
      → get_elem? s.heap p ≡ some c
      → c.socket_open ≡ true
      → pull desc msg ≡ some (rest, d)
      → IsRoster s.user.player_roster
      → Fits platform s c d
      → g.map_objects ≡ []
      → (t : GameServer platform) × (on_message platform s (some p) msg ≡ some t)
        × (t.user.garbage_ids ≡ [])
        × (g' : GameClient F) × Mirrors platform three zero_yaw p s t g g'
        × (g'.player_id ≡ c.id)
        × (g'.waiting_for_connection ≡ false)
  newcomer-Mirrors s p c msg rest d g alive once asked at_p is_open pulled roster fits empty_map =
      let (g', mirrors, known, playing) = welcomed s p c d g alive once roster fits empty_map in
      (
        registers platform s p c d,
        on_message-registers platform s p c msg rest d alive asked at_p is_open pulled,
        registers-garbage platform s p c d alive,
        g',
        mirrors,
        known,
        playing,
      )
