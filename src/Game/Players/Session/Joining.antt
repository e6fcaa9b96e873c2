-- ===== src/Game/Players/Session/Joining.antt =====
-- A registration, as another client follows it.
use networking_projects.Prelude.{
  ℕ, ◌≡◌, refl, sym, ap, ◌∙◌, false, List, [], ◌∷◌, ◌++◌, Option, none, some,
}
use networking_projects.Message.{Message, pull}
use networking_projects.Connection.{get_id}
use networking_projects.Connection.Types.{Connection}
use networking_projects.Server.{deref, same}
use networking_projects.Game.Common.{GameMsg, PlayerDescription}
use networking_projects.Game.GameServer.{
  GamePlatform, GameServer, insert_or_assign, tell, tell_all, enrol, send_roster, register,
  add_player, assign_id,
}
use networking_projects.Game.Players.View.{Tracks, put-seen, Tracks-nobody, nobody-Tracks}
use networking_projects.Game.Players.Session.{
  Follows, told-Follows, all_told-Follows, send_roster-Follows,
}

module _ {F V : Type 0} (platform : GamePlatform F) (view : PlayerDescription F → V) where
  open platform use {base, desc}

  module _ (heap : List (Connection GameMsg)) (q : ℕ) where
    -- A registration by another client, when nobody waits to be announced.
    pub register-Follows :
        {objects : List (ℕ × PlayerDescription F)} (s t : GameServer platform) (client : Option ℕ)
        (msg rest : Message GameMsg) (d : PlayerDescription F) (c : Connection GameMsg)
        (inbox : List (Message GameMsg))
        → register platform s client msg ≡ some t
        → s.user.garbage_ids ≡ []
        → pull desc msg ≡ some (rest, d)
        → deref heap client ≡ some c
        → same (some q) client ≡ false
        → Follows platform view heap q inbox objects s
        → let d' : PlayerDescription F = record d { unique_id = get_id base c } in
          Follows platform view heap q
            (inbox ++ add_player platform d' ∷ [])
            (insert_or_assign d'.unique_id d' objects)
            t
    unfolding register enrol
    register-Follows {objects} s t client msg rest d c inbox e nobody pulled there other f =
        let id = get_id base c in
        let d' : PlayerDescription F = record d { unique_id = id } in
        let enrolled = enrol platform s id d' in
        let assigned = tell platform enrolled client (assign_id platform id) in
        let added = tell_all platform assigned (add_player platform d') none in
        let at_client : deref s.heap client ≡ some c = ap (λ h. deref h client) f.still ∙ there in
        let came : Tracks view enrolled.user (insert_or_assign id d' objects) =
          nobody-Tracks view enrolled.user (insert_or_assign id d' objects) nobody (
            put-seen view id d' objects s.user.player_roster
              (Tracks-nobody view s.user objects nobody f.tracks)) in
        let begun : register platform s client msg
            ≡ send_roster platform added client added.user.player_roster =
          rw (pulled, at_client) refl in
        let joined : Follows platform view heap q inbox (insert_or_assign id d' objects) enrolled =
          record { still = f.still; reached = f.reached; posts = f.posts; tracks = came } in
        send_roster-Follows platform view heap q added.user.player_roster added t client
          (inbox ++ add_player platform d' ∷ []) (sym begun ∙ e) other
          (all_told-Follows platform view heap q assigned (add_player platform d') none inbox refl (
            told-Follows platform view heap q enrolled client (assign_id platform id) inbox other
              joined))
