-- ===== src/Game/GameServer/Running/Steps.antt =====
-- What the handler of messages keeps: whatever its own sends, an enrolment and the clearing of the
-- departed keep.
use networking_projects.Prelude.{
  ◌>>=◌, ℕ, ◌≡◌, refl, ap, ◌∙◌, sym, subst, Bool, true, false, List, [], ◌∷◌, Option, none, some,
  if◌then◌else◌, some-eq, some≢none, bind-inverts,
}
use networking_projects.Message.{Message, pull}
use networking_projects.Connection.{get_id}
use networking_projects.Connection.Types.{Connection}
use networking_projects.Server.{deref}
use networking_projects.Game.Common.{
  GameMsg, PlayerDescription, server_get_status, server_get_ping, client_accepted, client_assign_id,
  client_register_with_server, client_unregister_with_server, game_add_player, game_remove_player,
  game_update_player, other,
}
use networking_projects.Game.GameServer.{
  GamePlatform, GameServer, tell, tell_all, remove_player, assign_id, add_player, announce_garbage,
  clear_garbage, collect, enrol, collect_garbage, send_roster, register, handle, on_message,
}

module _ {F : Type 0} (platform : GamePlatform F) where
  -- A step that is defined only under a condition.
  pub guarded :
      (b : Bool) (o : Option (GameServer platform)) (t : GameServer platform)
      → (if b then o else none) ≡ some t
      → o ≡ some t
  guarded true o t e = e
  guarded false o t e = absurd (some≢none (sym e))

  -- The server when a client of this description has been told of itself, and the others of it.
  abbrev pub introduced :
      GameServer platform
      → Option ℕ
      → PlayerDescription F
      → Connection GameMsg
      → GameServer platform
  introduced s client sent c =
      let id = get_id platform.base c in
      let desc = record sent { unique_id = id } in
      let enrolled = enrol platform s id desc in
      let assigned = tell platform enrolled client (assign_id platform id) in
      tell_all platform assigned (add_player platform desc) none

  cleared_garbage : (s : GameServer platform) → (clear_garbage platform s).user.garbage_ids ≡ []
  unfolding clear_garbage
  cleared_garbage s = refl

  -- A property of the server that each of its own steps keeps. Players are enrolled under their
  -- identifier, when nobody waits to be announced.
  pub record Closed (Inv : GameServer platform → Type 0) : Type 0 where
    pub told :
        (s : GameServer platform) (client : Option ℕ) (m : Message GameMsg)
        → Inv s
        → Inv (tell platform s client m)
    pub all_told :
        (s : GameServer platform) (m : Message GameMsg) (ignore : Option ℕ)
        → Inv s
        → Inv (tell_all platform s m ignore)
    pub enrolled :
        (s : GameServer platform) (id : ℕ) (desc : PlayerDescription F)
        → s.user.garbage_ids ≡ []
        → desc.unique_id ≡ id
        → Inv s
        → Inv (enrol platform s id desc)
    pub cleared : (s : GameServer platform) → Inv s → Inv (clear_garbage platform s)

  module _ {Inv : GameServer platform → Type 0} (laws : Closed Inv) where
    announce_garbage-Inv :
        (pids : List ℕ) (s t : GameServer platform)
        → announce_garbage platform s pids ≡ some t
        → Inv s
        → Inv t
    unfolding announce_garbage
    announce_garbage-Inv [] s t e h = subst Inv (some-eq e) h
    announce_garbage-Inv (pid ∷ pids) s t e h =
        announce_garbage-Inv pids (tell_all platform s (remove_player platform pid) none) t
          (guarded _ _ t e) (laws.all_told s (remove_player platform pid) none h)

    send_roster-Inv :
        (players : List (ℕ × PlayerDescription F)) (s t : GameServer platform) (client : Option ℕ)
        → send_roster platform s client players ≡ some t
        → Inv s
        → Inv t
    unfolding send_roster
    send_roster-Inv [] s t client e h = subst Inv (some-eq e) h
    send_roster-Inv ((id, desc) ∷ players) s t client e h =
        send_roster-Inv players (tell platform s client (add_player platform desc)) t client
          (guarded _ _ t e) (laws.told s client (add_player platform desc) h)

    collect-Inv :
        (pids : List ℕ) (s t : GameServer platform)
        → collect platform s pids ≡ some t
        → s.user.garbage_ids ≡ pids
        → Inv s
        → (t.user.garbage_ids ≡ []) × Inv t
    unfolding collect
    collect-Inv [] s t e nobody h =
        (ap (λ u. u.user.garbage_ids) (sym (some-eq e)) ∙ nobody, subst Inv (some-eq e) h)
    collect-Inv (pid ∷ pids) s t e some_wait h =
        let (u, announced, cleared) =
          bind-inverts (announce_garbage platform s (pid ∷ pids))
            (λ v. some (clear_garbage platform v)) t e in
        (
          ap (λ v. v.user.garbage_ids) (sym (some-eq cleared)) ∙ cleared_garbage u,
          subst Inv (some-eq cleared)
              (laws.cleared u (announce_garbage-Inv (pid ∷ pids) s u announced h)),
        )

    introduced-Inv :
        (s : GameServer platform) (client : Option ℕ) (sent : PlayerDescription F)
        (c : Connection GameMsg)
        → s.user.garbage_ids ≡ []
        → Inv s
        → Inv (introduced s client sent c)
    introduced-Inv s client sent c nobody h =
        let id = get_id platform.base c in
        let desc = record sent { unique_id = id } in
        laws.all_told (tell platform (enrol platform s id desc) client (assign_id platform id))
          (add_player platform desc) none
          (laws.told (enrol platform s id desc) client (assign_id platform id)
            (laws.enrolled s id desc nobody refl h))

    register-Inv :
        (s t : GameServer platform) (client : Option ℕ) (m : Message GameMsg)
        → register platform s client m ≡ some t
        → s.user.garbage_ids ≡ []
        → Inv s
        → Inv t
    unfolding register
    register-Inv s t client m e nobody h =
        let roster =
          λ (u : GameServer platform). send_roster platform u client u.user.player_roster in
        let (pulled, _, f) =
          bind-inverts (pull platform.desc m)
            (λ p. deref s.heap client >>= λ c. roster (introduced s client p.1 c)) t e in
        let (c, _, g) =
          bind-inverts (deref s.heap client) (λ c. roster (introduced s client pulled.1 c)) t f in
        let u = introduced s client pulled.1 c in
        send_roster-Inv u.user.player_roster u t client g
          (introduced-Inv s client pulled.1 c nobody h)

    handle-Inv :
        (s t : GameServer platform) (client : Option ℕ) (m : Message GameMsg) (id : GameMsg)
        → handle platform s client m id ≡ some t
        → s.user.garbage_ids ≡ []
        → Inv s
        → Inv t
    unfolding handle
    handle-Inv s t client m client_register_with_server e nobody h =
        register-Inv s t client m e nobody h
    handle-Inv s t client m game_update_player e nobody h =
        subst Inv (some-eq e) (laws.all_told s m client h)
    handle-Inv s t client m server_get_status e nobody h = subst Inv (some-eq e) h
    handle-Inv s t client m server_get_ping e nobody h = subst Inv (some-eq e) h
    handle-Inv s t client m client_accepted e nobody h = subst Inv (some-eq e) h
    handle-Inv s t client m client_assign_id e nobody h = subst Inv (some-eq e) h
    handle-Inv s t client m client_unregister_with_server e nobody h = subst Inv (some-eq e) h
    handle-Inv s t client m game_add_player e nobody h = subst Inv (some-eq e) h
    handle-Inv s t client m game_remove_player e nobody h = subst Inv (some-eq e) h
    handle-Inv s t client m (other k) e nobody h = subst Inv (some-eq e) h

    pub on_message-Inv :
        (s t : GameServer platform) (client : Option ℕ) (m : Message GameMsg)
        → on_message platform s client m ≡ some t
        → Inv s
        → Inv t
    unfolding on_message collect_garbage
    on_message-Inv s t client m e h =
        let (u, collected, handled) =
          bind-inverts (collect_garbage platform s) (λ v. handle platform v client m m.header.id) t
            e in
        let (nobody, h') = collect-Inv s.user.garbage_ids s u collected refl h in
        handle-Inv u t client m m.header.id handled nobody h'
