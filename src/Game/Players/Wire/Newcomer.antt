-- ===== src/Game/Players/Wire/Newcomer.antt =====
-- A newcomer's way into the game, from the registration that the server handles to its own frame.
use networking_projects.Prelude.{
  ℕ, ◌^◌, ◌<◌, ◌≡◌, sym, subst, ap, ◌∙◌, true, false, List, [], ◌∷◌, ◌++◌, map, append_assoc, some,
  some-eq, All, All-append, get_elem?, ◌>>=◌, drop, drop-append, length,
}
use networking_projects.Queue
use networking_projects.Client
use networking_projects.Message.{Message, pull}
use networking_projects.Connection.Types.{Connection}
use networking_projects.Connection.Write.{Outgoing, Event, run, start}
use networking_projects.Connection.Read.Frame.{IsSendable}
use networking_projects.Connection.Read.Stream.{HasBody, reads}
use networking_projects.Connection.Transport.{delivered_from}
use networking_projects.Game.Common.{
  GameMsg, PlayerDescription, client_assign_id, client_register_with_server, game_add_player,
  game_remove_player,
}
use networking_projects.Game.GameServer.{
  GamePlatform, GameServer, remove_player, assign_id, add_player, on_message,
}
use networking_projects.Game.GameServer.Arrivals.{registers, on_message-registers}
use networking_projects.Game.GameServer.Departures.{AreAlive}
use networking_projects.Game.GameServer.Register.{described}
use networking_projects.Game.GameClient.{update_all}
use networking_projects.Game.Frame.{MmoGame, Setting, receive}
use networking_projects.Game.Players.{players}
use networking_projects.Game.Players.Command.{message_of}
use networking_projects.Game.Players.Inbox.{posted_to, times}
use networking_projects.Game.Players.Roster.{IsRoster, players_of}
use networking_projects.Game.Players.Mirror.{gone, posted_to-announced}
use networking_projects.Game.Players.Mirror.Posts.{registers-newcomer}
use networking_projects.Game.Players.Mirror.Registration.{Fits, newcomer-Mirrors}
use networking_projects.Game.Players.Wire.{push-IsSendable, receive-delivered}

-- The header can tell of an identifier and of a description, and neither is empty.
pub record Carries {F : Type 0} (platform : GamePlatform F) : Type 0 where
  pub assigns :
      platform.base.header.IsValue (record { id = client_assign_id; size = platform.id.size })
  pub removes :
      platform.base.header.IsValue (record { id = game_remove_player; size = platform.id.size })
  pub adds :
      platform.base.header.IsValue (record { id = game_add_player; size = platform.desc.size })
  pub id_held : 0 < platform.id.size
  pub id_fits : platform.id.size < 2 ^ 32
  pub desc_held : 0 < platform.desc.size
  pub desc_fits : platform.desc.size < 2 ^ 32

append-cancel : {A : Type 0} (xs ys zs : List A) → xs ++ ys ≡ xs ++ zs → ys ≡ zs
append-cancel xs ys zs e = sym (drop-append xs ys) ∙ ap (drop (length xs)) e ∙ drop-append xs zs

module _ {F : Type 0} (platform : GamePlatform F) (carries : Carries platform) where
  open platform use {base}

  -- A message that arrives as it was sent.
  abbrev pub IsCarried : Message GameMsg → Type 0
  IsCarried m = IsSendable base m × HasBody m

  assign_id-IsCarried : (n : ℕ) → IsCarried (assign_id platform n)
  unfolding assign_id
  assign_id-IsCarried n =
      push-IsSendable base platform.id client_assign_id n carries.assigns carries.id_held
        carries.id_fits

  remove_player-IsCarried : (n : ℕ) → IsCarried (remove_player platform n)
  unfolding remove_player
  remove_player-IsCarried n =
      push-IsSendable base platform.id game_remove_player n carries.removes carries.id_held
        carries.id_fits

  add_player-IsCarried : (d : PlayerDescription F) → IsCarried (add_player platform d)
  unfolding add_player
  add_player-IsCarried d =
      push-IsSendable base platform.desc game_add_player d carries.adds carries.desc_held
        carries.desc_fits

  roster-IsCarried :
      (ds : List (PlayerDescription F)) → All IsCarried (map (add_player platform) ds)
  roster-IsCarried [] = tt
  roster-IsCarried (d ∷ ds) = (add_player-IsCarried d, roster-IsCarried ds)

  gone-IsCarried :
      (three zero_yaw : F) (ids : List ℕ)
      → All IsCarried (map (message_of platform three zero_yaw) (gone ids))
  gone-IsCarried three zero_yaw [] = tt
  gone-IsCarried three zero_yaw (id ∷ ids) =
      (remove_player-IsCarried id, gone-IsCarried three zero_yaw ids)

  sendable :
      (ms : List (Message GameMsg)) → All IsCarried ms → All (IsSendable base) ms × All HasBody ms
  sendable [] h = (tt, tt)
  sendable (m ∷ ms) h = let (s, b) = sendable ms h.1 in ((h.0.0, s), (h.0.1, b))

  -- All that the newcomer is posted while it registers.
  registers-IsCarried :
      (three zero_yaw : F) (s : GameServer platform) (p : ℕ) (c : Connection GameMsg)
      (d : PlayerDescription F) (sent : List (Message GameMsg))
      → AreAlive platform s.heap s.connections
      → times p s.connections ≡ 1
      → posted_to p (registers platform s p c d).posted ≡ posted_to p s.posted ++ sent
      → All IsCarried sent
  registers-IsCarried three zero_yaw s p c d sent alive once e =
      let goes = map (message_of platform three zero_yaw) (gone s.user.garbage_ids) in
      let welcome =
        assign_id platform c.id
        ∷ add_player platform (described platform c d)
        ∷ map (add_player platform) (players_of (registers platform s p c d).user.player_roster) in
      let found : posted_to p (registers platform s p c d).posted
          ≡ posted_to p s.posted ++ (goes ++ welcome) =
        registers-newcomer platform s p c d alive once
        ∙ ap (λ l. l ++ welcome) (posted_to-announced platform three zero_yaw s p alive once)
        ∙ append_assoc (posted_to p s.posted) goes welcome in
      subst (All IsCarried)
        (append-cancel (posted_to p s.posted) (goes ++ welcome) sent (sym found ∙ e))
        (All-append IsCarried goes welcome (gone-IsCarried three zero_yaw s.user.garbage_ids) (
          assign_id-IsCarried c.id,
          (
            add_player-IsCarried (described platform c d),
            roster-IsCarried (players_of (registers platform s p c d).user.player_roster),
          ),
        ))

module _ {F V : Type 0} (setting : Setting F V) (carries : Carries setting.platform) where
  open setting use {platform, numbers}
  open platform use {base, desc, id}

  -- A client registers, while all clients of the container are connected and it stands there once, and
  -- its body holds a description; the roster has every player under its own identifier, once; all
  -- numbers sent lie in the ranges of their types, and a header can tell of an identifier's and of a
  -- description's bytes, which are some, but fewer than 2 ^ 32. The connection at the server's end then
  -- sends from an empty queue what it was posted by the handler, asio running the posted lambdas and
  -- completing the writes in any order, until its queue is empty again. The other end reads the
  -- bytes that went out, from a header on, and pushes what it reads to the client's incoming queue. Then
  -- the frame of a connected client without players that finds all this in the queue is defined so
  -- far, and leaves a client that knows its identifier, no longer waits and holds the same players as
  -- the server's roster.
  pub newcomer-plays :
      (s t : GameServer platform) (p : ℕ) (c : Connection GameMsg) (msg rest : Message GameMsg)
      (d : PlayerDescription F) (r : Connection GameMsg) (es : List (Event GameMsg))
      (o : Outgoing GameMsg) (g : MmoGame F V)
      → AreAlive platform s.heap s.connections
      → times p s.connections ≡ 1
      → msg.header.id ≡ client_register_with_server
      → get_elem? s.heap p ≡ some c
      → c.socket_open ≡ true
      → pull desc msg ≡ some (rest, d)
      → IsRoster s.user.player_roster
      → Fits platform s c d
      → on_message platform s (some p) msg ≡ some t
      → run base (start base c) es ≡ some o
      → o.conn.messages_out.items ≡ []
      → posted_to p t.posted ≡ posted_to p s.posted ++ o.sent
      → Client.is_connected base g.client.interface ≡ true
      → g.client.map_objects ≡ []
      → (g' : MmoGame F V) × (receive setting (record g {
        messages_in = record { items = delivered_from base p r (reads o.sent) o.wire };
      })
          ≡ some g')
        × (g'.client.player_id ≡ c.id)
        × (g'.client.waiting_for_connection ≡ false)
        × (players g'.client.map_objects ≡ players t.user.player_roster)
  newcomer-plays s t p c msg rest d r es o g alive once asked at_p is_open pulled roster fits
        handled ran drained posted connected empty_map =
      let three = numbers.literal 3 0 in
      let zero_yaw = numbers.literal 0 0 in
      let (t', handled', _, client, (news, told, followed, held), known, playing) =
        newcomer-Mirrors platform three zero_yaw s p c msg rest d g.client alive once asked at_p
          is_open pulled roster fits empty_map in
      let same : t' ≡ t = some-eq (sym handled' ∙ handled) in
      let made : registers platform s p c d ≡ t = some-eq (
        sym (on_message-registers platform s p c msg rest d alive asked at_p is_open pulled)
        ∙ handled) in
      let got : news ≡ o.sent =
        append-cancel (posted_to p s.posted) news o.sent
          (sym told ∙ ap (λ u. posted_to p u.posted) same ∙ posted) in
      let carried =
        registers-IsCarried platform carries three zero_yaw s p c d o.sent alive once
          (ap (λ u. posted_to p u.posted) made ∙ posted) in
      let (sendable_all, bodies) = sendable platform carries o.sent carried in
      (
        record g { client = client; messages_in = Queue.no_items },
        receive-delivered setting c r p es o g ran drained sendable_all bodies connected
            ∙ ap
                (λ u.
                  u >>= λ client. some (record g { client = client; messages_in = Queue.no_items }))
                (subst (λ ms. update_all platform three zero_yaw g.client ms ≡ some client) got
                  followed),
        known,
        playing,
        held ∙ ap (λ u. players u.user.player_roster) same,
      )
