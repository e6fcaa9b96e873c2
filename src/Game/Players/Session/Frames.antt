-- ===== src/Game/Players/Session/Frames.antt =====
-- Between two messages a client plays frames, and the server need not know.
use networking_projects.Prelude.{ℕ, ◌≡◌, List, some}
use networking_projects.Game.Common.{PlayerDescription}
use networking_projects.Game.Numbers.{Numbers}
use networking_projects.Game.GameServer.{find}
use networking_projects.Game.GameClient.{GameClient}
use networking_projects.Game.Control.{control_of_player_object}
use networking_projects.Game.Movement.{update_objects_locally}
use networking_projects.Game.Frame.{Setting, Input}

module _ {F : Type 0} (numbers : Numbers F) where
  -- Whose player it is, and its looks: what no frame changes.
  abbrev pub Identity : Type 0
  Identity = ℕ × (ℕ × (F × F))

  abbrev pub identity : PlayerDescription F → Identity
  identity d = (d.unique_id, (d.avatar_id, (d.radius, d.bullet_radius)))

module _ {F V : Type 0} (setting : Setting F V) where
  open setting use {platform, numbers, view, fresh}

  -- A frame's part in the client: the objects are those of the movement, and the player's is there.
  abbrev Plays : F → Input → GameClient F → GameClient F → Type 0
  Plays elapsed input c c' =
      (moved : List (ℕ × PlayerDescription F)) × (d : PlayerDescription F) × (update_objects_locally
          numbers elapsed
          (control_of_player_object numbers input.keys fresh c.player_id c.map_objects)
        ≡ some moved)
      × (find c.player_id moved ≡ some d)
      × (c'.map_objects ≡ moved)
      × (c'.player_id ≡ c.player_id)
