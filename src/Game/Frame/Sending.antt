-- ===== src/Game/Frame/Sending.antt =====
-- What a frame of a player in the game sends to the server.
use networking_projects.Prelude.{
  ◌>>=◌, Option, if◌then◌else◌, ℕ, ◌≡◌, refl, sym, ap, ◌∙◌, true, false, List, [], ◌∷◌, ◌++◌, some,
  ◌==◌, Bool-cases, inl, inr, some≢none, some-eq,
}
use networking_projects.Connection.{send}
use networking_projects.Connection.Types.{post_send}
use networking_projects.Client
use networking_projects.Game.Common.{PlayerDescription}
use networking_projects.Game.Movement.{update_objects_locally}
use networking_projects.Game.Movement.Objects.{kept, all_kept, update_objects_locally-kept}
use networking_projects.Game.Control.{object_at, control, control_of_player_object}
use networking_projects.Game.Control.Laws.{find-control_of_player_object}
use networking_projects.Game.Screen.{
  Call, update_screen, handle_pan_and_zoom, draw_world_objects, clear, black,
}
use networking_projects.Game.Screen.Visible.{draw_world-defined}
use networking_projects.Game.GameServer.{find}
use networking_projects.Game.GameClient.{GameClient, player_update, send_player_description}
use networking_projects.Game.Frame.{
  waiting_screen, MmoGame, Setting, Input, three, zero_yaw, receive, play, on_user_update,
}

module _ {F V : Type 0} (setting : Setting F V) where
  open setting use {platform, numbers, view, fresh}

  pub find-kept :
      (k : ℕ) (l l' : List (ℕ × PlayerDescription F)) (d : PlayerDescription F)
      → all_kept numbers l' ≡ all_kept numbers l
      → find k l ≡ some d
      → (d' : PlayerDescription F) × (find k l' ≡ some d') × (kept numbers d' ≡ kept numbers d)
  unfolding find
  find-kept k [] l' d same e = absurd (some≢none (sym e))
  find-kept k (x ∷ l) [] d same e = absurd cc
  find-kept k ((j, x) ∷ l) ((j', x') ∷ l') d same e =
      let key : j' ≡ j = cc in
      let first : kept numbers x' ≡ kept numbers x = cc in
      let others : all_kept numbers l' ≡ all_kept numbers l = cc in
      elim (Bool-cases (j == k)) [
        | inl here ↦
            let now : find k ((j, x) ∷ l) ≡ some x = rw here refl in
            let it : x ≡ d = some-eq (sym now ∙ e) in
            (
              x',
              ap (λ i. if i == k then some x' else find k l') key ∙ rw here refl,
              first ∙ ap (kept numbers) it,
            )
        | inr there ↦
            let now : find k ((j, x) ∷ l) ≡ find k l = rw there refl in
            let later : find k l ≡ some d = sym now ∙ e in
            let (d', found, stays) = find-kept k l l' d others later in
            (
              d',
              ap (λ i. if i == k then some x' else find k l') key
                  ∙ ap (λ b. if b then some x' else find k l') there
                  ∙ found,
              stays,
            )
      ]

  -- The screen can be drawn wherever the view looks.
  update_screen-defined :
      (tv : V) (objects : List (ℕ × PlayerDescription F))
      → (calls : List (Call F)) × (update_screen numbers view tv objects ≡ some calls)
  unfolding update_screen
  update_screen-defined tv objects =
      let (world, drawn) = draw_world-defined numbers view tv in
      (clear black ∷ (world ++ draw_world_objects numbers view objects), rw drawn refl)

  sent :
      (c : GameClient F) (d : PlayerDescription F)
      → Client.is_connected platform.base c.interface ≡ true
      → find c.player_id c.map_objects ≡ some d
      → send_player_description platform (three setting) (zero_yaw setting) fresh c ≡ record c {
        interface = record (c.interface) {
          posted =
              c.interface.posted
              ++ post_send (player_update platform (three setting) (zero_yaw setting) d) ∷ [];
        };
      }
  unfolding send_player_description Client.send send
  sent c d connected own = rw (own, send_player_description) (rw connected refl)

  -- The client and the view after a frame in which the objects have moved.
  abbrev after : Input → MmoGame F V → List (ℕ × PlayerDescription F) → MmoGame F V
  after input g moved =
      let c = record (g.client) { map_objects = moved } in
      record g {
        client = send_player_description platform (three setting) (zero_yaw setting) fresh c;
        tv = handle_pan_and_zoom numbers view input.mouse g.tv;
      }

  play-calls :
      (elapsed : F) (input : Input) (g : MmoGame F V) (moved : List (ℕ × PlayerDescription F))
      (calls : List (Call F))
      → update_objects_locally numbers elapsed (
          control_of_player_object numbers input.keys fresh g.client.player_id g.client.map_objects)
        ≡ some moved
      → update_screen numbers view (after input g moved).tv (after input g moved).client.map_objects
        ≡ some calls
      → play setting elapsed input g ≡ some (after input g moved, calls)
  unfolding play
  play-calls elapsed input g moved calls moves drawn = rw moves (rw drawn refl)

  -- A frame, from the state after the messages were read, posts one message: the description of the
  -- player's object as the keys and the movement left it.
  abbrev pub Sends : F → Input → MmoGame F V → MmoGame F V → List (ℕ × PlayerDescription F) → Type 0
  Sends elapsed input g g' moved =
      (g'' : MmoGame F V) × (calls : List (Call F)) × (d : PlayerDescription F) × (on_user_update
          setting elapsed input g
        ≡ some (g'', calls))
      × (find g'.client.player_id moved ≡ some d)
      × (kept numbers d
          ≡ kept numbers (
              control numbers input.keys
                (object_at fresh g'.client.player_id g'.client.map_objects)))
      × (g''.client.map_objects ≡ moved)
      × (g''.client.interface.posted
          ≡ g'.client.interface.posted
            ++ post_send (player_update platform (three setting) (zero_yaw setting) d) ∷ [])

  -- In a frame in which a connected player is in the game and the objects' movement is defined, the
  -- frame is defined; it posts one message, the player's description as the keys and the movement left
  -- it, which has the identifier, the velocity and the yaw that the keys gave the player's object; and
  -- the objects are those of the movement.
  pub on_user_update-Sends :
      (elapsed : F) (input : Input) (g g' : MmoGame F V) (moved : List (ℕ × PlayerDescription F))
      → receive setting g ≡ some g'
      → g'.client.waiting_for_connection ≡ false
      → Client.is_connected platform.base g'.client.interface ≡ true
      → update_objects_locally numbers elapsed (
          control_of_player_object numbers input.keys fresh g'.client.player_id
            g'.client.map_objects)
        ≡ some moved
      → Sends elapsed input g g' moved
  unfolding on_user_update play
  on_user_update-Sends elapsed input g g' moved received playing connected moves =
      let c = g'.client in
      let steered = control_of_player_object numbers input.keys fresh c.player_id c.map_objects in
      let own = control numbers input.keys (object_at fresh c.player_id c.map_objects) in
      let there : find c.player_id steered ≡ some own =
        find-control_of_player_object numbers input.keys fresh c.player_id c.map_objects in
      let same = (update_objects_locally-kept numbers elapsed steered moved moves).0 in
      let (d, found, stays) = find-kept c.player_id steered moved own same there in
      let g'' = after input g' moved in
      let told = sent (record c { map_objects = moved }) d connected found in
      let (calls, drawn) = update_screen-defined g''.tv g''.client.map_objects in
      (
        g'',
        calls,
        d,
        ap (λ o. o >>= λ t. proceed t) received
            ∙ ap
                (λ w.
                  if w then some (g', waiting_screen setting) else play setting elapsed input g')
                playing
            ∙ play-calls elapsed input g' moved calls moves drawn,
        found,
        stays,
        ap (λ x. x.map_objects) told,
        ap (λ x. x.interface.posted) told,
      )
    where
      proceed : MmoGame F V → Option (MmoGame F V × List (Call F))
      proceed t =
          if t.client.waiting_for_connection
          then some (t, waiting_screen setting)
          else play setting elapsed input t
