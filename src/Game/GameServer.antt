-- ===== src/Game/GameServer.antt =====
-- `GameServer` of MMO_Game/src/MMO_Server.cpp: the overrides, and the message handler. `none` is
-- undefined behaviour. The order in which an unordered_map is walked through is that of the list.
pub mod Maps
pub mod Relay
pub mod Garbage
pub mod Register
pub mod Departures
pub mod Arrivals
pub mod Passing
pub mod Growth
pub mod Running
mod Tests
use networking_projects.Prelude.{
  ◌>>=◌, ℕ, Bool, true, List, [], ◌∷◌, ◌++◌, Option, none, some, ◌==◌, if◌then◌else◌, length,
}
use networking_projects.Message.{Message, empty, push, pull}
use networking_projects.Message.Layout.{Pod}
use networking_projects.Connection.{get_id}
use networking_projects.Connection.Types.{Connection, Platform}
use networking_projects.Server.{Server, Hooks, deref, message_client, message_all_clients}
use networking_projects.Game.Common.{
  GameMsg, client_accepted, client_assign_id, client_register_with_server, game_add_player,
  game_remove_player, game_update_player, PlayerDescription,
}

-- `std::unordered_map`, as far as the server uses it: keys are not repeated.
module _ {V : Type 0} where
  unfoldable pub find : ℕ → List (ℕ × V) → Option V
  find k [] = none
  find k ((j, v) ∷ l) = let rest = find k l in if j == k then some v else rest

  unfoldable pub insert_or_assign : ℕ → V → List (ℕ × V) → List (ℕ × V)
  insert_or_assign k v [] = (k, v) ∷ []
  insert_or_assign k v ((j, w) ∷ l) =
      let rest = insert_or_assign k v l in if j == k then (k, v) ∷ l else (j, w) ∷ rest

  unfoldable pub erase : ℕ → List (ℕ × V) → List (ℕ × V)
  erase k [] = []
  erase k ((j, v) ∷ l) = let rest = erase k l in if j == k then rest else (j, v) ∷ rest

-- `m_mapPlayerRoster` and `m_vGarbageIDs`.
pub record GameState (F : Type 0) : Type 0 where
  pub player_roster : List (ℕ × PlayerDescription F)
  pub garbage_ids : List ℕ

-- How the compiler lays out what the game sends.
pub record GamePlatform (F : Type 0) : Type 1 where
  pub base : Platform GameMsg
  pub desc : Pod (PlayerDescription F)
  pub id : Pod ℕ

module _ {F : Type 0} (platform : GamePlatform F) where
  abbrev pub GameServer : Type 0
  GameServer = Server GameMsg (GameState F)

  unfoldable pub on_client_connect : GameState F → Connection GameMsg → GameState F × Bool
  on_client_connect g client = (g, true)

  unfoldable pub on_client_validated :
      GameState F → Connection GameMsg → GameState F × List (Message GameMsg)
  on_client_validated g client = (g, empty client_accepted ∷ [])

  unfoldable pub on_client_disconnect : GameState F → Option (Connection GameMsg) → GameState F
  on_client_disconnect g none = g
  on_client_disconnect g (some client) =
      let id = get_id platform.base client in
      elim (find id g.player_roster) [
        | none ↦ g
        | some desc ↦ record {
          player_roster = erase id g.player_roster;
          garbage_ids = g.garbage_ids ++ id ∷ [];
        }
      ]

  abbrev pub hooks : Hooks GameMsg (GameState F)
  hooks = record {
    on_client_connect = on_client_connect;
    on_client_disconnect = on_client_disconnect;
    on_client_validated = on_client_validated;
  }

  abbrev pub tell : GameServer → Option ℕ → Message GameMsg → GameServer
  tell = message_client platform.base hooks

  abbrev pub tell_all : GameServer → Message GameMsg → Option ℕ → GameServer
  tell_all = message_all_clients platform.base hooks

  unfoldable pub remove_player : ℕ → Message GameMsg
  remove_player pid = push platform.id (empty game_remove_player) pid

  unfoldable pub assign_id : ℕ → Message GameMsg
  assign_id id = push platform.id (empty client_assign_id) id

  unfoldable pub add_player : PlayerDescription F → Message GameMsg
  add_player desc = push platform.desc (empty game_add_player) desc

  -- The loop over `m_vGarbageIDs`. A client that turns out dead while the loop runs may be put in the
  -- same vector, which invalidates the loop's iterators.
  unfoldable pub announce_garbage : GameServer → List ℕ → Option GameServer
  announce_garbage s [] = some s
  announce_garbage s (pid ∷ pids) =
      let s' = tell_all s (remove_player pid) none in
      let rest = announce_garbage s' pids in
      if length s'.user.garbage_ids == length s.user.garbage_ids then rest else none

  unfoldable pub clear_garbage : GameServer → GameServer
  clear_garbage s = record s {
    user = record { player_roster = s.user.player_roster; garbage_ids = [] };
  }

  unfoldable pub collect : GameServer → List ℕ → Option GameServer
  unfolding clear_garbage
  collect s [] = some s
  collect s (pid ∷ pids) = do t ← announce_garbage s (pid ∷ pids); some (clear_garbage t)

  unfoldable pub collect_garbage : GameServer → Option GameServer
  unfolding collect
  collect_garbage s = collect s s.user.garbage_ids

  -- The loop over the roster at the end of a registration; an erasure would invalidate it.
  unfoldable pub send_roster :
      GameServer → Option ℕ → List (ℕ × PlayerDescription F) → Option GameServer
  send_roster s client [] = some s
  send_roster s client ((id, desc) ∷ players) =
      let s' = tell s client (add_player desc) in
      let rest = send_roster s' client players in
      if length s'.user.player_roster == length s.user.player_roster then rest else none

  unfoldable pub enrol : GameServer → ℕ → PlayerDescription F → GameServer
  enrol s id desc = record s {
    user = record {
      player_roster = insert_or_assign id desc s.user.player_roster;
      garbage_ids = s.user.garbage_ids;
    };
  }

  -- `case GameMsg::Client_RegisterWithServer`.
  unfoldable pub register : GameServer → Option ℕ → Message GameMsg → Option GameServer
  unfolding enrol
  register s client msg = do
    (msg', sent) ← pull platform.desc msg
    c ← deref s.heap client
    let id = get_id platform.base c
    let desc = record sent { unique_id = id }
    let enrolled = enrol s id desc
    let assigned = tell enrolled client (assign_id id)
    let added = tell_all assigned (add_player desc) none
    send_roster added client added.user.player_roster

  unfoldable pub handle : GameServer → Option ℕ → Message GameMsg → GameMsg → Option GameServer
  handle s client msg client_register_with_server = register s client msg
  handle s client msg game_update_player = some (tell_all s msg client)
  handle s client msg unhandled = some s

  unfoldable pub on_message : GameServer → Option ℕ → Message GameMsg → Option GameServer
  unfolding handle
  on_message s client msg = do t ← collect_garbage s; handle t client msg msg.header.id
