-- ===== src/Echo/Server.antt =====
-- src/server/server.cpp and src/run_tcp_server.cpp: the server's threads, and the program that runs it
-- for twenty seconds. `none` is an assertion that fails, or a null pointer.
use networking_projects.Prelude.{
  ◌>>=◌, ℕ, zero, suc, ◌+◌, ◌*◌, ◌%◌, ◌^◌, Bool, true, false, List, Option, none, some, ◌==◌,
  if◌then◌else◌, ltb,
}
use networking_projects.Echo.Acceptor
use networking_projects.Echo.Acceptor.{Acceptor, Event}

pub record Server : Type 0 where
  -- The work object, which keeps the event loop going.
  pub has_work : Bool
  pub acceptor : Option Acceptor
  -- The threads of the pool that run the event loop.
  pub running : ℕ
  pub is_stopped : Bool

unfoldable pub new_server : Server
new_server = record { has_work = true; acceptor = none; running = 0; is_stopped = false }

unfoldable pub add_threads : ℕ → Server → Server
add_threads zero s = s
add_threads (suc n) s = add_threads n (record s { running = s.running + 1 })

unfoldable pub start : Server → ℕ → Option Server
unfolding add_threads
start s thread_pool_size =
    if ltb 0 thread_pool_size
    then some (add_threads thread_pool_size (record s { acceptor = some Acceptor.start }))
    else none

-- The loop is told to stop, and every thread is joined.
unfoldable pub stop : Server → Option Server
stop s = do
  a ← s.acceptor
  some (record s { acceptor = some (Acceptor.stop a); is_stopped = true; running = 0 })

abbrev pub default_thread_pool_size : ℕ
default_thread_pool_size = 2

-- `hardware_concurrency() * 2`, of 32 bits, or the default.
unfoldable pub pool_size : ℕ → ℕ
pool_size hardware_concurrency =
    let size = (hardware_concurrency * 2) % 2 ^ 32 in
    if size == 0 then default_thread_pool_size else size

-- What happens while the program sleeps.
unfoldable pub serve : List Event → Server → Server
serve es s = elim s.acceptor [
  | none ↦ s
  | some a ↦ record s { acceptor = some (Acceptor.run a es) }
]

-- `main`: the exit code, and the server as it is left; an error code of 0 is that of a port that could be
-- listened on.
unfoldable pub main : ℕ → ℕ → List Event → Option (ℕ × Server)
unfolding start stop serve new_server pool_size
main hardware_concurrency listen_ec es =
    if listen_ec == 0
    then start new_server (pool_size hardware_concurrency)
      >>= (λ s. stop (serve es s) >>= λ t. some (0, t))
    else some (listen_ec, new_server)

-- A server that listens, with so many threads at its event loop.
abbrev pub started : ℕ → Server
started n = record new_server { acceptor = some Acceptor.start; running = n }

-- The server that the program leaves behind.
abbrev pub stopped : List Event → Server
stopped es = record new_server {
  acceptor = some (Acceptor.stop (Acceptor.run Acceptor.start es));
  is_stopped = true;
}
