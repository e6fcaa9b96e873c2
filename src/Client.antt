-- ===== src/Client.antt =====
-- MMO_Game/include/olcPGEX_Network/client_interface.h: one connection to a server, or none.
use networking_projects.Prelude.{
  [], Bool, true, false, List, ◌++◌, Option, none, some, if◌then◌else◌,
}
use networking_projects.Message.{Message}
use networking_projects.Connection
use networking_projects.Connection.Types.{Connection, Platform, Owner, Action}

pub record Client (T : Type 0) : Type 0 where
  pub connection : Option (Connection T)
  -- The work handed to the context, in order.
  pub posted : List (Action T)
  -- The context's thread runs.
  pub running : Bool

unfoldable pub new_client : {T : Type 0} → Client T
new_client = record { connection = none; posted = []; running = false }

module _ {T : Type 0} (platform : Platform T) where
  -- A socket that is not open yet; a name that is not resolved throws.
  unfoldable pub connect : Client T → Bool → Client T × Bool
  connect c false = (c, false)
  connect c true =
      let conn = Connection.new_connection platform Owner.client false 0 in
      let begun : Client T = record {
        connection = some conn;
        posted = c.posted ++ Connection.connect_to_server platform conn;
        running = true;
      } in
      (begun, true)

  unfoldable pub is_connected : Client T → Bool
  is_connected c = elim c.connection [
    | none ↦ false
    | some conn ↦ Connection.is_connected platform conn
  ]

  -- `release()` gives the connection up without destroying it.
  unfoldable pub disconnect : Client T → Client T
  disconnect c = elim c.connection [
    | none ↦ record c { running = false }
    | some conn ↦ record {
      connection = none;
      posted = c.posted ++ Connection.disconnect platform conn;
      running = false;
    }
  ]

  unfoldable pub destroy : Client T → Client T
  unfolding disconnect
  destroy c = disconnect c

  unfoldable pub send : Client T → Message T → Client T
  unfolding is_connected
  send c msg =
      if is_connected c then record c { posted = c.posted ++ Connection.send platform msg } else c
