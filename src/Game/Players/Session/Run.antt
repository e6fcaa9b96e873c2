-- ===== src/Game/Players/Session/Run.antt =====
-- A session: messages that the server handles one after another, and clients that it finds dead, as one
-- client that stays follows it.
use networking_projects.Prelude.{
  ℕ, ◌≡◌, refl, sym, subst, ap, ◌∙◌, false, List, [], ◌++◌, map, append_assoc, append-nil, Option,
  some, All, All-append,
}
use networking_projects.Message.{Message}
use networking_projects.Connection.Types.{Connection}
use networking_projects.Server.{same}
use networking_projects.Game.Common.{GameMsg, PlayerDescription, game_update_player}
use networking_projects.Game.GameServer.{GamePlatform, GameServer, on_client_disconnect, on_message}
use networking_projects.Game.GameClient.{GameClient, update_all}
use networking_projects.Game.Players.Command.{
  Command, perform_all, perform_all-append, map-append, message_of, FitsIn, after_all,
  update_all-after_all,
}
use networking_projects.Game.Players.Inbox.{posted_to}
use networking_projects.Game.Players.Channel.{Reaches}
use networking_projects.Game.Players.View.{Tracks, on_client_disconnect-Tracks}
use networking_projects.Game.Players.Session.{Follows}
use networking_projects.Game.Players.Session.Handler.{
  Request, Answers, on_message-Answers, on_message-own,
}

module _ {F V : Type 0} (platform : GamePlatform F) (three zero_yaw : F)
    (view : PlayerDescription F → V) where
  open platform use {base, id}

  -- From `s`, by messages of other clients than the one at `q` and by updates of that one, none of them
  -- undefined, and by clients reported as gone.
  pub data Session (q : ℕ) (s : GameServer platform) : GameServer platform → Type 0 where
    done : Session q s s
    handles :
        {t u : GameServer platform} (client : Option ℕ) (msg : Message GameMsg)
        → Session q s t
        → on_message platform t client msg ≡ some u
        → same (some q) client ≡ false
        → All id.IsValue t.user.garbage_ids
        → Request platform three zero_yaw view t.user.player_roster t.heap client msg
        → Session q s u
    -- The client's own update of its player.
    updates :
        {t u : GameServer platform} (msg : Message GameMsg)
        → Session q s t
        → on_message platform t (some q) msg ≡ some u
        → msg.header.id ≡ game_update_player
        → All id.IsValue t.user.garbage_ids
        → Session q s u
    loses :
        {t : GameServer platform} (c : Option (Connection GameMsg))
        → Session q s t
        → Session q s (record t { user = on_client_disconnect platform t.user c })

  -- What is posted later comes behind, and is done last.
  Answers-trans :
      (heap : List (Connection GameMsg)) (q : ℕ) (inbox : List (Message GameMsg))
      (objects : List (ℕ × PlayerDescription F)) (t u : GameServer platform) (cs : List (Command F))
      → All (FitsIn platform three zero_yaw) cs
      → Follows platform view heap q
          (inbox ++ map (message_of platform three zero_yaw) cs)
          (perform_all cs objects)
          t
      → Answers platform three zero_yaw view t.heap q
          (posted_to q t.posted)
          (perform_all cs objects)
          u
      → Answers platform three zero_yaw view heap q inbox objects u
  Answers-trans heap q inbox objects t u cs valid f (ds, valid', f') =
      let sent = map (message_of platform three zero_yaw) in
      (
        cs ++ ds,
        All-append (FitsIn platform three zero_yaw) cs ds valid valid',
        record {
          still = f'.still ∙ f.still;
          reached = f'.reached;
          posts =
              f'.posts
              ∙ ap (λ l. l ++ sent ds) f.posts
              ∙ append_assoc inbox (sent cs) (sent ds)
              ∙ ap (◌++◌ inbox) (sym (map-append (message_of platform three zero_yaw) cs ds));
          tracks = subst (Tracks view u.user) (sym (perform_all-append cs ds objects)) f'.tracks;
        },
      )

  Session-Answers :
      (q : ℕ) {s t : GameServer platform} (objects : List (ℕ × PlayerDescription F))
      → Session q s t
      → Reaches platform q s
      → Tracks view s.user objects
      → Answers platform three zero_yaw view s.heap q (posted_to q s.posted) objects t
  Session-Answers q {s} objects done reached tracks = (
    [],
    tt,
    record {
      still = refl;
      reached = reached;
      posts = sym (append-nil (posted_to q s.posted));
      tracks = tracks;
    },
  )
  Session-Answers q {s} objects (handles {t} {u} client msg before handled other fit request)
        reached tracks =
      let (cs, valid, f) = Session-Answers q objects before reached tracks in
      Answers-trans s.heap q (posted_to q s.posted) objects t u cs valid f (
        on_message-Answers platform three zero_yaw view t u client q msg (perform_all cs objects)
          handled f.reached other fit request f.tracks)
  Session-Answers q {s} objects (updates {t} {u} msg before handled is_update fit) reached tracks =
      let (cs, valid, f) = Session-Answers q objects before reached tracks in
      Answers-trans s.heap q (posted_to q s.posted) objects t u cs valid f (
        on_message-own platform three zero_yaw view t u q msg (perform_all cs objects) handled
          f.reached is_update fit f.tracks)
  Session-Answers q {s} objects (loses {t} c before) reached tracks =
      let (cs, valid, f) = Session-Answers q objects before reached tracks in
      (
        cs,
        valid,
        record {
          still = f.still;
          reached = f.reached;
          posts = f.posts;
          tracks =
              on_client_disconnect-Tracks platform view t.user c (perform_all cs objects) f.tracks;
        },
      )

  -- A view is given: what is compared of each player. However many messages the server handles,
  -- none of them undefined, and whoever it finds dead meanwhile, let each message that is not an
  -- update by the client itself be of another client, and a registration with a whole description, an
  -- update of a registered player that the view does not show, or of a kind that the server does not
  -- handle; and let all numbers sent lie in the ranges of their types, and nothing happen to the server
  -- between the messages but reports of lost clients. Then a connected client that stands in the container once, and whose players look like those
  -- of the roster but for departures that are not announced yet, finds when it has handled just what it is
  -- posted meanwhile that its players look so again, with the roster that the server has by then. No
  -- message that it gets is undefined, it keeps its identifier, and it is still reached.
  pub Session-Tracks :
      (q : ℕ) (s t : GameServer platform) (g : GameClient F)
      → Session q s t
      → Reaches platform q s
      → Tracks view s.user g.map_objects
      → (news : List (Message GameMsg)) × (g' : GameClient F) × (posted_to q t.posted
          ≡ posted_to q s.posted ++ news)
        × (update_all platform three zero_yaw g news ≡ some g')
        × Tracks view t.user g'.map_objects
        × (g'.player_id ≡ g.player_id)
        × Reaches platform q t
  Session-Tracks q s t g session reached tracks =
      let (cs, valid, f) = Session-Answers q g.map_objects session reached tracks in
      (
        map (message_of platform three zero_yaw) cs,
        after_all g cs,
        f.posts,
        update_all-after_all platform three zero_yaw cs g valid,
        f.tracks,
        refl,
        f.reached,
      )
