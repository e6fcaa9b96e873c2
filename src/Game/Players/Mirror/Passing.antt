-- ===== src/Game/Players/Mirror/Passing.antt =====
-- An update of any player, as the server of MMO_Game/src/MMO_Server.cpp and another client see it.
use networking_projects.Prelude.{
  ℕ, ◌≡◌, refl, sym, ap, ◌∙◌, false, List, [], ◌∷◌, ◌++◌, map, append_assoc, some, All, All-append,
  Option,
}
use mathlib.Core.Path.{ap₂}
use networking_projects.Message.{Message, push, empty}
use networking_projects.Server.{same}
use networking_projects.Game.Common.{GameMsg, PlayerDescription}
use networking_projects.Game.GameServer.{GamePlatform, GameServer, on_message}
use networking_projects.Game.GameServer.Departures.{AreAlive, announced}
use networking_projects.Game.GameServer.Passing.{passed, on_message-passed}
use networking_projects.Game.GameClient.{GameClient, update_all, player_update}
use networking_projects.Game.Players.{players, put}
use networking_projects.Game.Players.Command.{
  change, perform_all-apply_all, message_of, FitsIn, after_all, update_all-after_all,
}
use networking_projects.Game.Players.Inbox.{posted_to, posted_to-append, times, posted_to-once}
use networking_projects.Game.Players.Mirror.{
  gone, apply_all-append, Lags, gone-FitsIn, messages-append, posted_to-announced,
}

module _ {F : Type 0} (platform : GamePlatform F) (three zero_yaw : F) where
  open platform use {base, desc, id}

  -- When a client's update of a player comes, and all clients of the container are connected, any
  -- other client that stands in it once, and that held the server's players but for those whose
  -- departure had not been announced, holds, when it has handled just what it is posted meanwhile, the
  -- players of the server's roster with that player's description put in under its identifier, if all
  -- numbers sent lie in the ranges of their types. The server's own roster is not updated.
  pub update-reaches :
      (s : GameServer platform) (client : Option ℕ) (q : ℕ) (d : PlayerDescription F)
      (g : GameClient F)
      → AreAlive platform s.heap s.connections
      → times q s.connections ≡ 1
      → same (some q) client ≡ false
      → All id.IsValue s.user.garbage_ids
      → desc.IsValue d
      → Lags s.user g
      → (t : GameServer platform) × (on_message platform s client
            (player_update platform three zero_yaw d)
          ≡ some t)
        × (t.user ≡ record { player_roster = s.user.player_roster; garbage_ids = [] })
        × (news : List (Message GameMsg)) × (posted_to q t.posted ≡ posted_to q s.posted ++ news)
        × (g' : GameClient F) × (update_all platform three zero_yaw g news ≡ some g')
        × (players g'.map_objects ≡ put d.unique_id d (players s.user.player_roster))
  unfolding player_update push empty
  update-reaches s client q d g alive once meant fit valid lags =
      let cs = gone s.user.garbage_ids ++ change d ∷ [] in
      let msg = player_update platform three zero_yaw d in
      let all_fit =
        All-append (FitsIn platform three zero_yaw) (gone s.user.garbage_ids) (change d ∷ [])
          (gone-FitsIn platform three zero_yaw s.user.garbage_ids fit) (valid, tt) in
      (
        passed platform s client msg,
        on_message-passed platform s client msg alive refl,
        refl,
        map (message_of platform three zero_yaw) cs,
        posted_to-append q (announced platform s).posted _
            ∙ ap₂ ◌++◌ (posted_to-announced platform three zero_yaw s q alive once)
                (posted_to-once platform s.heap q client msg s.connections meant alive once)
            ∙ append_assoc (posted_to q s.posted) _ (msg ∷ [])
            ∙ ap (◌++◌ (posted_to q s.posted))
                (sym (messages-append platform three zero_yaw s.user.garbage_ids (change d))),
        after_all g cs,
        update_all-after_all platform three zero_yaw cs g all_fit,
        perform_all-apply_all cs g.map_objects
            ∙ apply_all-append (gone s.user.garbage_ids) (change d ∷ []) (players g.map_objects)
            ∙ ap (put d.unique_id d) lags,
      )
