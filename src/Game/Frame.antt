-- ===== src/Game/Frame.antt =====
-- A frame of the game, `OnUserUpdate` of MMO_Game/src/MMO_Client.cpp, and how the game begins. What
-- the engine says of the keys, the mouse and the time is an argument of the frame; what the frame draws
-- is its result. A message that comes while the loop over the queue runs counts for the next frame.
-- `none` is undefined behaviour.
pub mod Sending
mod Tests
use networking_projects.Prelude.{
  ◌>>=◌, ℕ, Bool, true, List, [], ◌∷◌, map, Option, some, if◌then◌else◌, codes,
}
use networking_projects.Prelude.Int.{ℤ, pos}
use networking_projects.Queue
use networking_projects.Queue.{Queue}
use networking_projects.Connection.Types.{OwnedMessage}
use networking_projects.Client
use networking_projects.Game.Common.{GameMsg, Point, PlayerDescription}
use networking_projects.Game.Numbers.{Numbers}
use networking_projects.Game.Movement.{update_objects_locally}
use networking_projects.Game.Control.{Keys, control_of_player_object}
use networking_projects.Game.Screen.{
  View, Call, clear, draw_string, dark_blue, white, Mouse, handle_pan_and_zoom, update_screen,
}
use networking_projects.Game.GameServer.{GamePlatform}
use networking_projects.Game.GameClient.{GameClient, update_all, send_player_description}

pub record MmoGame (F V : Type 0) : Type 0 where
  pub client : GameClient F
  pub tv : V
  pub messages_in : Queue (OwnedMessage GameMsg)

-- The parameters of the game: the layout of its messages, the floats, the view, and a description that
-- is not filled in.
pub record Setting (F V : Type 0) : Type 1 where
  pub platform : GamePlatform F
  pub numbers : Numbers F
  pub view : View F V
  pub fresh : PlayerDescription F

-- What the engine says of the keys and the mouse in a frame.
pub record Input : Type 0 where
  pub keys : Keys
  pub mouse : Mouse

-- What the engine calls of a program: once, and in each frame.
pub record Application (F V : Type 0) : Type 0 where
  pub on_user_create : Point ℤ → Bool → MmoGame F V → MmoGame F V × Bool
  pub on_user_update : F → Input → MmoGame F V → Option (MmoGame F V × List (Call F))

module _ {F V : Type 0} (setting : Setting F V) where
  open setting use {platform, numbers, view, fresh}

  -- A game that has no connection yet.
  unfoldable pub new_game : V → MmoGame F V
  new_game tv =
      let client : GameClient F = record {
        interface = Client.new_client;
        map_objects = [];
        player_id = 0;
        desc_player = fresh;
        waiting_for_connection = true;
      } in
      record { client = client; tv = tv; messages_in = Queue.no_items }

  -- `sAppName`.
  abbrev pub app_name : List ℕ
  app_name = codes "MMO Client"

  -- `screen` is the engine's ScreenWidth() and ScreenHeight(), `resolved` whether the host is known.
  unfoldable pub on_user_create : Point ℤ → Bool → MmoGame F V → MmoGame F V × Bool
  on_user_create screen resolved g =
      let tv = view.new_view screen (record { x = pos 8; y = pos 8 }) in
      let (interface, ok) = Client.connect platform.base g.client.interface resolved in
      (record g { client = record (g.client) { interface = interface }; tv = tv }, ok)

  abbrev pub three : F
  three = numbers.literal 3 0

  abbrev pub zero_yaw : F
  zero_yaw = numbers.literal 0 0

  -- `Incoming()`.
  unfoldable pub incoming : MmoGame F V → Queue (OwnedMessage GameMsg)
  incoming g = g.messages_in

  -- The messages of the incoming queue, in their order.
  unfoldable pub receive : MmoGame F V → Option (MmoGame F V)
  unfolding incoming
  receive g =
      if Client.is_connected platform.base g.client.interface
      then update_all platform three zero_yaw g.client (map (λ m. m.msg) (incoming g).items)
        >>= (λ client. some (record g { client = client; messages_in = Queue.no_items }))
      else some g

  abbrev pub waiting_screen : List (Call F)
  waiting_screen =
      clear dark_blue
      ∷ draw_string (record { x = pos 10; y = pos 10 }) (codes "Waiting To Connect...") white
      ∷ []

  -- The frame of a player who is in the game.
  unfoldable pub play : F → Input → MmoGame F V → Option (MmoGame F V × List (Call F))
  play elapsed input g =
      let c = g.client in
      let objects = control_of_player_object numbers input.keys fresh c.player_id c.map_objects in
      update_objects_locally numbers elapsed objects >>= λ moved.
      let client =
        send_player_description platform three zero_yaw fresh (record c { map_objects = moved }) in
      let tv = handle_pan_and_zoom numbers view input.mouse g.tv in
      update_screen numbers view tv client.map_objects >>= λ calls.
      some (record g { client = client; tv = tv }, calls)

  unfoldable pub on_user_update : F → Input → MmoGame F V → Option (MmoGame F V × List (Call F))
  unfolding receive play
  on_user_update elapsed input g = receive g >>= λ g'.
      if g'.client.waiting_for_connection then some (g', waiting_screen) else play elapsed input g'

  -- What the class overrides of the engine's.
  abbrev pub application : Application F V
  application = record { on_user_create = on_user_create; on_user_update = on_user_update }

  -- `main`: what the engine's Start makes of the game by its overrides, `start`, if the engine could
  -- be set up.
  unfoldable pub main :
      Bool → (Application F V → MmoGame F V → Option (MmoGame F V)) → V → Option (MmoGame F V)
  unfolding new_game
  main constructed start tv =
      if constructed then start application (new_game tv) else some (new_game tv)
