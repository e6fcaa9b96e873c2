-- ===== src/Game/Players/Session.antt =====
-- Any message that the server of MMO_Game/src/MMO_Server.cpp handles, whoever has died meanwhile, as one
-- client of MMO_Client.cpp follows it.
pub mod Joining
pub mod Handler
pub mod Run
pub mod Frames
mod Tests
mod FrameTests
use networking_projects.Prelude.{
  ℕ, ◌≡◌, refl, sym, subst, ap, ◌∙◌, true, false, List, [], ◌∷◌, ◌++◌, map, append_assoc,
  append-nil, Option, none, some, some-eq, bind-inverts, if◌then◌else◌, some≢none, Bool,
}
use networking_projects.Message.{Message}
use networking_projects.Connection.Types.{Connection}
use networking_projects.Server.{same}
use networking_projects.Server.Running.User.{
  Respects, message_client-user, message_all_clients-user,
}
use networking_projects.Game.Common.{GameMsg, PlayerDescription}
use networking_projects.Game.GameServer.{
  GameState, GamePlatform, GameServer, hooks, tell, tell_all, on_client_connect,
  on_client_validated, announce_garbage, clear_garbage, collect, send_roster, remove_player,
  add_player,
}
use networking_projects.Game.GameServer.Growth.{tell_all-unchanged}
use networking_projects.Game.Players.Inbox.{posted_to}
use networking_projects.Game.Players.Channel.{
  Reaches, tell-other, tell_all-posted, tell_all-ignored, tell-heap, tell_all-heap,
}
use networking_projects.Game.Players.View.{seen, Tracks, on_client_disconnect-Tracks}
use networking_projects.Game.Players.Mirror.{gone}
use networking_projects.Game.Players.Command.{perform_all}
use networking_projects.Game.Players.{players}

-- A step that is defined only under a condition.
guarded :
    {A : Type 0} (b : Bool) (o : Option A) (a : A)
    → (if b then o else none) ≡ some a
    → (b ≡ true) × (o ≡ some a)
guarded true o a e = (refl, e)
guarded false o a e = absurd (some≢none (sym e))

module _ {F V : Type 0} (platform : GamePlatform F) (view : PlayerDescription F → V) where
  open platform use {base, desc}

  Tracks-hooks :
      (objects : List (ℕ × PlayerDescription F))
      → Respects base (hooks platform) (λ u. Tracks view u objects)
  unfolding on_client_connect on_client_validated
  Tracks-hooks objects = record {
    connects = λ user c h. h;
    disconnects = λ user c h. on_client_disconnect-Tracks platform view user c objects h;
    validates = λ user c h. h;
  }

  -- The client at `q` has been posted these messages in all; with these objects it tracks the server.
  pub record Follows (heap : List (Connection GameMsg)) (q : ℕ) (inbox : List (Message GameMsg))
      (objects : List (ℕ × PlayerDescription F)) (s : GameServer platform) : Type 0 where
    pub still : s.heap ≡ heap
    pub reached : Reaches platform q s
    pub posts : posted_to q s.posted ≡ inbox
    pub tracks : Tracks view s.user objects

  module _ (heap : List (Connection GameMsg)) (q : ℕ)
      {objects : List (ℕ × PlayerDescription F)} where
    pub told-Follows :
        (s : GameServer platform) (client : Option ℕ) (m : Message GameMsg)
        (inbox : List (Message GameMsg))
        → same (some q) client ≡ false
        → Follows heap q inbox objects s
        → Follows heap q inbox objects (tell platform s client m)
    told-Follows s client m inbox other f =
        let (reached, posts) = tell-other platform s client q m other f.reached in
        record {
          still = tell-heap platform s client m ∙ f.still;
          reached = reached;
          posts = posts ∙ f.posts;
          tracks =
              message_client-user base (hooks platform) (Tracks-hooks objects) s client m f.tracks;
        }

    pub all_told-Follows :
        (s : GameServer platform) (m : Message GameMsg) (ignore : Option ℕ)
        (inbox : List (Message GameMsg))
        → same (some q) ignore ≡ false
        → Follows heap q inbox objects s
        → Follows heap q (inbox ++ m ∷ []) objects (tell_all platform s m ignore)
    all_told-Follows s m ignore inbox other f =
        let (reached, posts) = tell_all-posted platform s ignore q m other f.reached in
        record {
          still = tell_all-heap platform s m ignore ∙ f.still;
          reached = reached;
          posts = posts ∙ ap (λ l. l ++ m ∷ []) f.posts;
          tracks =
              message_all_clients-user base (hooks platform) (Tracks-hooks objects) s m ignore
                f.tracks;
        }

    pub ignored-Follows :
        (s : GameServer platform) (m : Message GameMsg) (inbox : List (Message GameMsg))
        → Follows heap q inbox objects s
        → Follows heap q inbox objects (tell_all platform s m (some q))
    ignored-Follows s m inbox f =
        let (reached, posts) = tell_all-ignored platform s q m f.reached in
        record {
          still = tell_all-heap platform s m (some q) ∙ f.still;
          reached = reached;
          posts = posts ∙ f.posts;
          tracks =
              message_all_clients-user base (hooks platform) (Tracks-hooks objects) s m (some q)
                f.tracks;
        }

    pub send_roster-Follows :
        (l : List (ℕ × PlayerDescription F)) (s t : GameServer platform) (client : Option ℕ)
        (inbox : List (Message GameMsg))
        → send_roster platform s client l ≡ some t
        → same (some q) client ≡ false
        → Follows heap q inbox objects s
        → Follows heap q inbox objects t
    unfolding send_roster
    send_roster-Follows [] s t client inbox e other f =
        subst (Follows heap q inbox objects) (some-eq e) f
    send_roster-Follows ((id, d) ∷ l) s t client inbox e other f =
        send_roster-Follows l (tell platform s client (add_player platform d)) t client inbox
          (guarded _ _ t e).1 other (told-Follows s client (add_player platform d) inbox other f)

    -- The departures are announced, and nobody else is found to have left.
    announce_garbage-Follows :
        (pids : List ℕ) (s t : GameServer platform) (inbox : List (Message GameMsg))
        → announce_garbage platform s pids ≡ some t
        → Follows heap q inbox objects s
        → (t.user ≡ s.user) × Follows heap q (inbox ++ map (remove_player platform) pids) objects t
    unfolding announce_garbage
    announce_garbage-Follows [] s t inbox e f = (
      ap (λ u. u.user) (sym (some-eq e)),
      subst (λ l. Follows heap q l objects t) (sym (append-nil inbox))
          (subst (Follows heap q inbox objects) (some-eq e) f),
    )
    announce_garbage-Follows (pid ∷ pids) s t inbox e f =
        let m = remove_player platform pid in
        let s' = tell_all platform s m none in
        let (counted, rest) = guarded _ _ t e in
        let (kept, f') =
          announce_garbage-Follows pids s' t (inbox ++ m ∷ []) rest
            (all_told-Follows s m none inbox refl f) in
        (
          kept ∙ tell_all-unchanged platform s m none counted,
          subst (λ l. Follows heap q l objects t)
              (append_assoc inbox (m ∷ []) (map (remove_player platform) pids)) f',
        )

    -- Then the client has removed them.
    pub collect-Follows :
        (pids : List ℕ) (s t : GameServer platform) (inbox : List (Message GameMsg))
        → collect platform s pids ≡ some t
        → s.user.garbage_ids ≡ pids
        → Follows heap q inbox objects s
        → (t.user ≡ record { player_roster = s.user.player_roster; garbage_ids = [] })
          × Follows heap q
              (inbox ++ map (remove_player platform) pids)
              (perform_all (gone pids) objects)
              t
    unfolding collect clear_garbage
    collect-Follows [] s t inbox e pending f = (
      ap (λ u. u.user) (sym (some-eq e))
          ∙ ap (λ (g : List ℕ). record { player_roster = s.user.player_roster; garbage_ids = g })
              pending,
      subst (λ l. Follows heap q l objects t) (sym (append-nil inbox))
          (subst (Follows heap q inbox objects) (some-eq e) f),
    )
    collect-Follows (pid ∷ pids) s t inbox e pending f =
        let (u, announced, cleared) =
          bind-inverts (announce_garbage platform s (pid ∷ pids))
            (λ v. some (clear_garbage platform v)) t e in
        let (kept, f') = announce_garbage-Follows (pid ∷ pids) s u inbox announced f in
        let settled : players (seen view (perform_all (gone (pid ∷ pids)) objects))
            ≡ players (seen view u.user.player_roster) =
          ap (λ ids. players (seen view (perform_all (gone ids) objects))) (sym pending)
          ∙ f.tracks
          ∙ ap (λ v. players (seen view v.player_roster)) (sym kept) in
        (
          ap (λ v. v.user) (sym (some-eq cleared))
              ∙ ap
                  (λ (v : GameState F). record {
                    player_roster = v.player_roster;
                    garbage_ids = [];
                  })
                  kept,
          subst
              (Follows heap q (inbox ++ map (remove_player platform) (pid ∷ pids))
                (perform_all (gone (pid ∷ pids)) objects))
              (some-eq cleared)
              (record {
                still = f'.still;
                reached = f'.reached;
                posts = f'.posts;
                tracks = settled;
              }),
        )
