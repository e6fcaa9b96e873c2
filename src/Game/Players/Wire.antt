-- ===== src/Game/Players/Wire.antt =====
-- What the server posts, through a connection's two halves (connection.h), into a frame of a client of
-- MMO_Game/src/MMO_Client.cpp.
pub mod Newcomer
mod Tests
use networking_projects.Prelude.{
  ◌>>=◌, ℕ, ◌^◌, ◌<◌, ◌≡◌, refl, sym, subst, ◌%◌, ap, ◌∙◌, true, List, [], ◌∷◌, map, some, All,
  arith, length,
}
use mathlib.Core.Path.{ap₂}
use networking_projects.Queue
use networking_projects.Message.{Message, empty, push}
use networking_projects.Message.Laws.{push_lem}
use networking_projects.Message.Layout.{Pod}
use networking_projects.Client
use networking_projects.Connection.Types.{Connection, Platform, OwnedMessage, Owner, server, client}
use networking_projects.Connection.Write.{Outgoing, Event, run, start}
use networking_projects.Connection.Read.Frame.{IsSendable, owned, owned_by}
use networking_projects.Connection.Read.Stream.{HasBody, reads}
use networking_projects.Connection.Transport.{delivered_from, run-delivers_intact}
use networking_projects.Game.Common.{GameMsg}
use networking_projects.Game.GameClient.{update_all}
use networking_projects.Game.Frame.{MmoGame, Setting, incoming, receive}

-- What of an owned message the client's frame looks at.
abbrev pub messages : {T : Type 0} → List (OwnedMessage T) → List (Message T)
messages = map (λ m. m.msg)

messages-owned :
    {T : Type 0} (this : ℕ) (r : Connection T) (ms : List (Message T))
    → messages (map (owned this r) ms) ≡ ms
messages-owned this r [] = refl
messages-owned this r (m ∷ ms) = ap₂ ◌∷◌ (told r.owner_type) (messages-owned this r ms)
  where
    told : (o : Owner) → (owned_by o this m).msg ≡ m
    told server = refl
    told client = refl

module _ {T A : Type 0} (platform : Platform T) (pod : Pod A) where
  -- A message that holds one value can be sent, if the platform lays out a header of its kind and
  -- length, and the value is not empty.
  pub push-IsSendable :
      (id : T) (a : A)
      → platform.header.IsValue (record { id = id; size = pod.size })
      → 0 < pod.size
      → pod.size < 2 ^ 32
      → IsSendable platform (push pod (empty id) a) × HasBody (push pod (empty id) a)
  unfolding empty
  push-IsSendable id a in_range some_bytes fits =
      let bytes = pod.to_bytes a in
      let told : length bytes % 2 ^ 32 ≡ pod.size = omega (arith, pod.length-to_bytes a, fits) in
      let held : 0 < length bytes = omega (arith, pod.length-to_bytes a, some_bytes) in
      rw (push_lem pod (empty id) a) (
        record {
          in_range =
              subst (λ n. platform.header.IsValue (record { id = id; size = n })) (sym told)
                in_range;
          told = told ∙ sym (pod.length-to_bytes a);
          fits = omega (arith, pod.length-to_bytes a, fits);
        },
        held,
      )

module _ {F V : Type 0} (setting : Setting F V) where
  open setting use {platform, numbers}

  -- Messages that the other end sent, each with a body and with its size in its header, in whatever
  -- order writes and posted lambdas took turns until its queue was empty, are handled in the frame
  -- that finds all of them in the incoming queue, as they were and in their order.
  pub receive-delivered :
      (c r : Connection GameMsg) (this : ℕ) (es : List (Event GameMsg)) (o : Outgoing GameMsg)
      (g : MmoGame F V)
      → run platform.base (start platform.base c) es ≡ some o
      → o.conn.messages_out.items ≡ []
      → All (IsSendable platform.base) o.sent
      → All HasBody o.sent
      → Client.is_connected platform.base g.client.interface ≡ true
      → receive setting (record g {
        messages_in = record { items = delivered_from platform.base this r (reads o.sent) o.wire };
      })
        ≡ (update_all platform (numbers.literal 3 0) (numbers.literal 0 0) g.client o.sent
            >>= λ client. some (record g { client = client; messages_in = Queue.no_items }))
  unfolding receive incoming
  receive-delivered c r this es o g ran drained sendable bodies connected =
      let whole : messages (delivered_from platform.base this r (reads o.sent) o.wire) ≡ o.sent =
        ap messages (run-delivers_intact platform.base this c r es o ran drained sendable bodies)
        ∙ messages-owned this r o.sent in
      rw connected (
        ap
          (λ ms.
            update_all platform (numbers.literal 3 0) (numbers.literal 0 0) g.client ms
            >>= λ client. some (record g { client = client; messages_in = Queue.no_items }))
          whole)
