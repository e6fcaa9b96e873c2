-- ===== src/Game/Players/Session/Handler.antt =====
-- One message through the server's handler, and what a client makes of what it is posted meanwhile.
use networking_projects.Prelude.{
  ℕ, ◌≡◌, ◌≢◌, refl, sym, subst, ap, ◌∙◌, false, List, [], ◌∷◌, ◌++◌, map, append_assoc, append-nil,
  Option, some, some-eq, All, All-append, bind-inverts,
}
use networking_projects.Message.{Message, pull, push, empty}
use networking_projects.Connection.{get_id}
use networking_projects.Connection.Types.{Connection}
use networking_projects.Server.{deref, same}
use networking_projects.Game.Common.{
  GameMsg, PlayerDescription, client_register_with_server, game_update_player,
}
use networking_projects.Game.GameServer.{
  GamePlatform, GameServer, find, insert_or_assign, tell_all, remove_player, collect_garbage,
  handle, on_message,
}
use networking_projects.Game.GameServer.Passing.{handle-quiet}
use networking_projects.Game.GameClient.{player_update}
use networking_projects.Game.Players.Command.{
  Command, come, change, perform_all, perform_all-append, map-append, message_of, FitsIn,
}
use networking_projects.Game.Players.Mirror.{gone, gone-FitsIn, farewells}
use networking_projects.Game.Players.Inbox.{posted_to}
use networking_projects.Game.Players.Channel.{Reaches}
use networking_projects.Game.Players.View.{
  seen, Tracks, put-seen, same-seen, Tracks-nobody, nobody-Tracks,
}
use networking_projects.Game.Players.Session.Joining.{register-Follows}
use networking_projects.Game.Players.Session.{
  Follows, all_told-Follows, ignored-Follows, collect-Follows,
}

module _ {F V : Type 0} (platform : GamePlatform F) (three zero_yaw : F)
    (view : PlayerDescription F → V) where
  open platform use {base, desc, id}

  -- A message of a well-behaved client, whose numbers fit their types: a registration with a whole
  -- description, an update of a registered player that the view does not show, or any other.
  pub data Request (roster : List (ℕ × PlayerDescription F)) (heap : List (Connection GameMsg))
      (client : Option ℕ) (msg : Message GameMsg) : Type 0 where
    arrives :
        (rest : Message GameMsg) (d : PlayerDescription F) (c : Connection GameMsg)
        → msg.header.id ≡ client_register_with_server
        → pull desc msg ≡ some (rest, d)
        → deref heap client ≡ some c
        → desc.IsValue (record d { unique_id = get_id base c })
        → Request roster heap client msg
    changes :
        (d : PlayerDescription F)
        → msg ≡ player_update platform three zero_yaw d
        → desc.IsValue d
        → find d.unique_id (seen view roster) ≡ some (view d)
        → Request roster heap client msg
    passes :
        msg.header.id ≢ client_register_with_server
        → msg.header.id ≢ game_update_player
        → Request roster heap client msg

  -- The client is posted the messages of some commands, and tracks the server when it has done them.
  abbrev pub Answers :
      List (Connection GameMsg)
      → ℕ
      → List (Message GameMsg)
      → List (ℕ × PlayerDescription F)
      → GameServer platform
      → Type 0
  Answers heap q inbox objects t =
      (cs : List (Command F)) × All (FitsIn platform three zero_yaw) cs
      × Follows platform view heap q (inbox ++ map (message_of platform three zero_yaw) cs)
          (perform_all cs objects) t

  handle-Answers :
      (s t : GameServer platform) (heap : List (Connection GameMsg)) (client : Option ℕ) (q : ℕ)
      (msg : Message GameMsg) (inbox : List (Message GameMsg))
      (objects : List (ℕ × PlayerDescription F))
      → handle platform s client msg msg.header.id ≡ some t
      → s.user.garbage_ids ≡ []
      → same (some q) client ≡ false
      → Request s.user.player_roster heap client msg
      → Follows platform view heap q inbox objects s
      → Answers heap q inbox objects t
  unfolding handle player_update push empty
  handle-Answers s t heap client q msg inbox objects e nobody other
        (arrives rest d c asked pulled there valid) f =
      (
        come (record d { unique_id = get_id base c }) ∷ [],
        (valid, tt),
        register-Follows platform view heap q s t client msg rest d c inbox
            (ap (handle platform s client msg) (sym asked) ∙ e) nobody pulled there other f,
      )
  handle-Answers s t heap client q msg inbox objects e nobody other (changes d is valid shown) f =
      let m = player_update platform three zero_yaw d in
      let k = d.unique_id in
      let passed : tell_all platform s m client ≡ t =
        some-eq (ap (λ x. handle platform s client x x.header.id) (sym is) ∙ e) in
      let changed : Tracks view s.user (insert_or_assign k d objects) =
        nobody-Tracks view s.user (insert_or_assign k d objects) nobody (
          put-seen view k d objects s.user.player_roster
            (Tracks-nobody view s.user objects nobody f.tracks)
          ∙ same-seen view k d s.user.player_roster shown) in
      let ready : Follows platform view heap q inbox (insert_or_assign k d objects) s = record {
        still = f.still;
        reached = f.reached;
        posts = f.posts;
        tracks = changed;
      } in
      (
        change d ∷ [],
        (valid, tt),
        subst (Follows platform view heap q (inbox ++ m ∷ []) (insert_or_assign k d objects)) passed
            (all_told-Follows platform view heap q s m client inbox other ready),
      )
  handle-Answers s t heap client q msg inbox objects e nobody other (passes h h') f = (
    [],
    tt,
    subst (λ l. Follows platform view heap q l objects t) (sym (append-nil inbox))
        (subst (Follows platform view heap q inbox objects)
          (some-eq (sym (handle-quiet platform s client msg msg.header.id h h') ∙ e)) f),
  )

  all_messages :
      (inbox : List (Message GameMsg)) (pids : List ℕ) (cs : List (Command F))
      → (inbox ++ map (remove_player platform) pids) ++ map (message_of platform three zero_yaw) cs
        ≡ inbox ++ map (message_of platform three zero_yaw) (gone pids ++ cs)
  all_messages inbox pids cs =
      let sent = map (message_of platform three zero_yaw) in
      append_assoc inbox (map (remove_player platform) pids) (sent cs)
      ∙ ap (◌++◌ inbox) (
          ap (λ l. l ++ sent cs) (farewells platform three zero_yaw pids)
          ∙ sym (map-append (message_of platform three zero_yaw) (gone pids) cs))

  pub on_message-Answers :
      (s t : GameServer platform) (client : Option ℕ) (q : ℕ) (msg : Message GameMsg)
      (objects : List (ℕ × PlayerDescription F))
      → on_message platform s client msg ≡ some t
      → Reaches platform q s
      → same (some q) client ≡ false
      → All id.IsValue s.user.garbage_ids
      → Request s.user.player_roster s.heap client msg
      → Tracks view s.user objects
      → Answers s.heap q (posted_to q s.posted) objects t
  unfolding on_message collect_garbage
  on_message-Answers s t client q msg objects e reached other fit request tracks =
      let pids = s.user.garbage_ids in
      let (u, collected, handled) =
        bind-inverts (collect_garbage platform s) (λ v. handle platform v client msg msg.header.id)
          t e in
      let (kept, f) =
        collect-Follows platform view s.heap q pids s u (posted_to q s.posted) collected refl
          (record { still = refl; reached = reached; posts = refl; tracks = tracks }) in
      let (cs, valid, g) =
        handle-Answers u t s.heap client q msg
          (posted_to q s.posted ++ map (remove_player platform) pids)
          (perform_all (gone pids) objects) handled (ap (λ v. v.garbage_ids) kept) other
          (subst (λ l. Request l s.heap client msg) (ap (λ v. v.player_roster) (sym kept)) request)
          f in
      (
        gone pids ++ cs,
        All-append (FitsIn platform three zero_yaw) (gone pids) cs
            (gone-FitsIn platform three zero_yaw pids fit) valid,
        subst (λ l. Follows platform view s.heap q l (perform_all (gone pids ++ cs) objects) t)
            (all_messages (posted_to q s.posted) pids cs)
            (subst
              (λ l.
                Follows platform view s.heap q
                  ((posted_to q s.posted ++ map (remove_player platform) pids)
                    ++ map (message_of platform three zero_yaw) cs)
                  l t)
              (sym (perform_all-append (gone pids) cs objects)) g),
      )

  -- The client's own update.
  pub on_message-own :
      (s t : GameServer platform) (q : ℕ) (msg : Message GameMsg)
      (objects : List (ℕ × PlayerDescription F))
      → on_message platform s (some q) msg ≡ some t
      → Reaches platform q s
      → msg.header.id ≡ game_update_player
      → All id.IsValue s.user.garbage_ids
      → Tracks view s.user objects
      → Answers s.heap q (posted_to q s.posted) objects t
  unfolding on_message collect_garbage handle
  on_message-own s t q msg objects e reached is_update fit tracks =
      let pids = s.user.garbage_ids in
      let (u, collected, handled) =
        bind-inverts (collect_garbage platform s)
          (λ v. handle platform v (some q) msg msg.header.id) t e in
      let (kept, f) =
        collect-Follows platform view s.heap q pids s u (posted_to q s.posted) collected refl
          (record { still = refl; reached = reached; posts = refl; tracks = tracks }) in
      let passed : tell_all platform u msg (some q) ≡ t =
        some-eq (ap (handle platform u (some q) msg) (sym is_update) ∙ handled) in
      (
        gone pids,
        gone-FitsIn platform three zero_yaw pids fit,
        subst
            (λ l.
              Follows platform view s.heap q (posted_to q s.posted ++ l)
                (perform_all (gone pids) objects) t)
            (farewells platform three zero_yaw pids)
            (subst
              (Follows platform view s.heap q
                (posted_to q s.posted ++ map (remove_player platform) pids)
                (perform_all (gone pids) objects))
              passed
              (ignored-Follows platform view s.heap q u msg
                (posted_to q s.posted ++ map (remove_player platform) pids) f)),
      )
