-- ===== src/Connection/Tests.antt =====
-- A message with a body and one without, from one end to the other; and the handshake.
use networking_projects.Prelude.{
  ℕ, ◌%◌, ◌^◌, ◌≤◌, ◌≡◌, ◌↔◌, inl, refl, true, false, List, [], ◌∷◌, map, some, arith, length,
  replicate,
}
use networking_projects.Queue.{push, pop, front, is_empty}
use networking_projects.Message.{Message}
use networking_projects.Message.Laws.{IsSized, sized}
use networking_projects.Message.LittleEndian.{unsigned, both}
use networking_projects.Scramble.{scramble}
use networking_projects.Connection.{
  new_connection, on_send, on_header_written, on_body_written, write_header, write_body, write_next,
  connect_to_client, on_connected, on_validation_read, on_validation_written,
}
use networking_projects.Connection.Types.{
  Connection, Platform, server, client, write, read, header_read, header_written,
  validation_written, validation_read,
}
use networking_projects.Connection.Sample.{sample}
use networking_projects.Connection.Write.{
  Outgoing, Event, sends, completes, fails, closes, run, start, step, frames,
}
use networking_projects.Connection.Write.Drain.{IsPrefixOfFrames, run-IsPrefixOfFrames, run-drains}
use networking_projects.Connection.Read.Frame.{IsSendable, owned}
use networking_projects.Connection.Read.Stream.{arrivals, reads}
use networking_projects.Connection.Transport.{
  delivered_from, run-delivers, run-delivers_intact, stale_body,
}
use networking_projects.Connection.Handshake.{
  challenger, answered, IsAdmitted, IsRefused, honest_client-IsAdmitted, answered_iff,
  replayed_answer_iff,
}

abbrev platform : Platform ℕ
platform = sample (unsigned 4) 0

abbrev server_end : Connection ℕ
server_end = record {
  socket_open = true;
  messages_out = record { items = [] };
  msg_temporary_in = sized 0 [];
  owner_type = server;
  handshake_out = 5;
  handshake_in = 0;
  handshake_check = 0;
  valid_handshake = false;
  connection_established = false;
  id = 10_000;
}

abbrev with_body : Message ℕ
with_body = sized 1 (7 ∷ 8 ∷ [])

abbrev without_body : Message ℕ
without_body = sized 2 []

run-IsPrefixOfFrames_example :
    (s : Outgoing ℕ) × (run platform
        (start platform server_end)
        (sends with_body ∷ completes ∷ sends without_body ∷ fails 1 ∷ closes ∷ [])
      ≡ some s)
    × (length s.pending ≤ 1)
    × IsPrefixOfFrames platform s
run-IsPrefixOfFrames_example =
    run-IsPrefixOfFrames platform server_end
      (sends with_body ∷ completes ∷ sends without_body ∷ fails 1 ∷ closes ∷ [])

-- Two messages are in the queue, and the first one's header is being written.
abbrev waiting : Outgoing ℕ
waiting = record {
  conn = record server_end { messages_out = record { items = with_body ∷ without_body ∷ [] } };
  pending = write header_written (1 ∷ 0 ∷ 0 ∷ 0 ∷ 2 ∷ 0 ∷ 0 ∷ 0 ∷ []) ∷ [];
  wire = [];
  sent = with_body ∷ without_body ∷ [];
}

abbrev both_sent : List (Event ℕ)
both_sent = sends with_body ∷ sends without_body ∷ []

waiting-run : run platform (start platform server_end) both_sent ≡ some waiting
unfolding run step on_send push is_empty front write_header both
waiting-run = refl

run-drains_example :
    (t : Outgoing ℕ) × (run platform waiting (replicate 4 completes) ≡ some t)
    × (t.conn.messages_out.items ≡ [])
    × (t.wire ≡ frames platform waiting.sent)
run-drains_example =
    run-drains platform server_end both_sent waiting 4 waiting-run (inl (λ p. cc)) (omega arith)

-- Everything has gone out.
abbrev finished : Outgoing ℕ
finished = record {
  conn = server_end;
  pending = [];
  wire = frames platform (with_body ∷ without_body ∷ []);
  sent = with_body ∷ without_body ∷ [];
}

abbrev all_events : List (Event ℕ)
all_events = sends with_body ∷ sends without_body ∷ completes ∷ completes ∷ completes ∷ []

finished-run : run platform (start platform server_end) all_events ≡ some finished
unfolding run step on_send push pop is_empty front write_header write_body write_next
    on_header_written on_body_written both
finished-run = refl

with_body-IsSendable : IsSendable platform with_body
with_body-IsSendable = record {
  in_range = ((omega arith, omega arith), refl);
  told = refl;
  fits = omega arith;
}

without_body-IsSendable : IsSendable platform without_body
without_body-IsSendable = record {
  in_range = ((omega arith, omega arith), refl);
  told = refl;
  fits = omega arith;
}

run-delivers_example :
    delivered_from platform 3 server_end (reads finished.sent) finished.wire
    ≡ map (owned 3 server_end) (arrivals [] finished.sent)
run-delivers_example =
    run-delivers platform 3 server_end server_end all_events finished finished-run refl
      (with_body-IsSendable, (without_body-IsSendable, tt))

abbrev body_finished : Outgoing ℕ
body_finished = record {
  conn = server_end;
  pending = [];
  wire = frames platform (with_body ∷ []);
  sent = with_body ∷ [];
}

abbrev body_events : List (Event ℕ)
body_events = sends with_body ∷ completes ∷ completes ∷ []

body_finished-run : run platform (start platform server_end) body_events ≡ some body_finished
unfolding run step on_send push pop is_empty front write_header write_body write_next
    on_header_written on_body_written both
body_finished-run = refl

body_delivered :
    delivered_from platform 3 server_end (reads body_finished.sent) body_finished.wire
    ≡ map (owned 3 server_end) body_finished.sent
body_delivered =
    run-delivers_intact platform 3 server_end server_end body_events body_finished body_finished-run
      refl (with_body-IsSendable, tt) (omega arith, tt)

abbrev stale : Message ℕ
stale = record without_body { body = with_body.body }

stale_body_example :
    (delivered_from platform 3 server_end
        (reads (with_body ∷ without_body ∷ []))
        (frames platform (with_body ∷ without_body ∷ []))
      ≡ owned 3 server_end with_body ∷ owned 3 server_end stale ∷ [])
    × ¬ IsSized stale
stale_body_example =
    stale_body platform 3 server_end with_body without_body with_body-IsSendable
      without_body-IsSendable (omega arith) refl

honest_client-IsAdmitted_example :
    let me = (on_connected platform (new_connection platform client false 0) true).0 in
    let reply = on_validation_read platform me (some (platform.word.to_bytes 77)) in
    (connect_to_client platform (new_connection platform server true 77) 10_000 ≡ (
      challenger platform 77 10_000,
      write validation_written (platform.word.to_bytes 77)
          ∷ read validation_read platform.word.size
          ∷ [],
    ))
    × (reply.1 ≡ write validation_written (platform.word.to_bytes (scramble 77)) ∷ [])
    × (on_validation_written platform reply.0 true
        ≡ (reply.0, read header_read platform.header.size ∷ []))
    × IsAdmitted platform (answered platform 77 10_000 (platform.word.to_bytes (scramble 77)))
honest_client-IsAdmitted_example = honest_client-IsAdmitted platform 77 10_000 (omega arith)

answered_iff_example :
    (IsAdmitted platform (answered platform 77 10_000 (platform.word.to_bytes 78))
      ↔ (78 ≡ scramble 77))
    × (IsRefused platform (answered platform 77 10_000 (platform.word.to_bytes 78))
        ↔ ¬ (78 ≡ scramble 77))
answered_iff_example = answered_iff platform 77 10_000 78 (omega arith)

replayed_answer_iff_example :
    (IsAdmitted platform (answered platform 78 10_000 (platform.word.to_bytes (scramble 77))))
    ↔ (77 % 2 ^ 56 ≡ 78 % 2 ^ 56)
replayed_answer_iff_example = replayed_answer_iff platform 77 78 10_000
