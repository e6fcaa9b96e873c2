-- ===== src/Lib.antt =====
-- Networking Projects: the MMO game's network library and server, and the echo server and client.
--
-- Clients and a server exchange messages over TCP connections. A message (`Message`, of
-- MMO_Game/include/olcPGEX_Network/message.h) is a header and a body used as a stack of object
-- representations. A connection (`Connection`, connection.h) writes the messages of its outgoing
-- queue one at a time, header first, and assembles incoming messages into a queue that it shares with
-- the server; before that, the two ends go through a handshake (`Scramble`, the function `scramble`).
-- The queues are locked (`Queue`, thread_safe_queue.h). The server framework (`Server`,
-- server_interface.h) accepts connections, gives them identifiers, sends to one client or to all, and
-- hands incoming messages to a handler, which the game's server overrides (`Game.GameServer`,
-- MMO_Game/src/MMO_Server.cpp, with the messages' meaning from MMO_Game/include/MMO_Common.h in
-- `Game.Common`). The game's client (MMO_Game/src/MMO_Client.cpp) joins the game by these messages,
-- and in each frame reads the keys, moves the objects of the game against the walls of a map, tells
-- the server of its own object, and draws.
--
-- Apart from that, async_asio_tcp_echo_server has a client that sends its name and a message in one
-- line, and a server that greets it (`Echo`).
--
-- Files:
--   Prelude          library names, Boolean tests, lists, bits of numbers
--   Queue            ThreadSafeQueue: Front, Pop, Push, Empty, Count, Clear as front, pop, push,
--                    is_empty, count, clear; Queue/Waiting has the threads and the condition variable
--   Scramble         Connection::scramble; Scramble/Swap reads it as a swap of nibbles
--   Message          MessageHeader, Message, operator<< as push, operator>> as pull; Message/Layout is
--                    the interface of object representations, Message/LittleEndian an instance of it
--   Connection       a function for each member function of Connection, under its name, and one for
--                    each lambda: on_send, on_header_written, on_body_written, on_header_read,
--                    on_body_read, on_validation_written, on_validation_read, on_connected;
--                    Connection/Types has the state; Connection/Write, Read and Handshake run the
--                    sending half, the receiving half and the handshake; Connection/Transport joins
--                    the two halves
--   Server           ServerInterface: start, wait_for_client_connection, on_accept (the lambda),
--                    stop, message_client, message_all_clients, update; perform is what a
--                    connection's handler does to the server, and Server/Running the whole at work
--   Client           ClientInterface: connect, disconnect, is_connected, send
--   Game/GameServer  OnClientConnect, OnClientValidated, OnClientDisconnect and OnMessage
--                    and, in Game/GameServer/Running, main; Game/GameServer/Maps what an
--                    unordered_map holds; Arrivals and Passing the handler among clients that are all
--                    connected
--   Game/GameClient  MMOGame of MMO_Game/src/MMO_Client.cpp: UpdateClientState, by the kind of
--                    message, the loop of OnUserUpdate over them, and SendPlayerDescription
--   Game/Players     the players under their identifiers, a quotient of the maps of server and client
--                    that forgets their order; Players/Command what a message does to them,
--                    Players/Inbox what one client is posted, Players/Mirror server and client
--                    together, Players/Wire with the two halves of a connection between them,
--                    Players/Session any number of messages, for a part of each description (View),
--                    and the frames between them (Session/Frames)
--   Game/World       the map of MMO_Game/include/game_settings.h, and reading it
--   Game/Movement    UpdateObjectsLocally: update_objects_locally, with area_around for the cells that
--                    are tested, resolve for the collision loop, hits_wall for the bullet's; what it
--                    reads is in Movement/Reads, Walls, Inside and Bullets, what it leaves in
--                    Movement/OneObject and Movement/Objects
--   Game/Control     ControlOfPlayerObject
--   Game/Screen      HandlePanAndZoom, DrawWorld, DrawWorldObjects and UpdateScreen, as the list of the
--                    calls of the engine and its view; Screen/Visible what DrawWorld shows
--   Game/Frame       OnUserCreate, OnUserUpdate and main; Frame/Sending joins the parts of a frame
--   Game/Numbers     floats and vectors of the engine, as a record of operations with no laws;
--                    Game/Sample has data for the tests
--   Echo             Echo/Service has service.cpp, Echo/Client client.cpp and session.h, Echo/Acceptor
--                    acceptor.cpp, a function for each member function or lambda; Echo/Text what
--                    they use of std::string; Echo/Greeting joins a request and its answer;
--                    Echo/Server has server.cpp and run_tcp_server.cpp, Echo/Program
--                    run_tcp_client.cpp, with many requests at once
--
-- How the code is read. A handler is a function from the state to the new state and the list of what
-- it asks of asio, of the incoming queue and of the server, in order. `none` is undefined behaviour,
-- or a wait that cannot end. Numbers are natural numbers, cut to 32 or 64 bits where the code stores
-- them; bytes are numbers. The compiler's layout of a type is a parameter with the law that a value
-- copied out of its bytes is the value that was copied in. The clock, and whether an accepted socket
-- is open, are arguments. A shared pointer is an address on a heap of connections, or null.
--
-- Asio and TCP are not in the repository. Assumed of them: a completed write has sent all its bytes, a
-- failed one some of them from the start; a read of n bytes completes with the next n bytes of the
-- stream, or fails; the bytes that went out at one end come in at the other, in order; handlers of one
-- context do not run at once. The handshake's bytes come before the first header and are left out of
-- the stream of frames. A failed read closes the connection; what it may have put in the temporary
-- message is not followed, for nothing is read afterwards.
--
-- Assumed of the programs' surroundings, or simplified: `socket.remote_endpoint()` in the accept handler
-- does not throw; the context's thread and the thread that calls `Update` take turns, so the access to
-- the container of connections, which has no lock, is not raced; a connection stays on the heap when its
-- last pointer is reset, so a handler that completes later, with its raw `this`, finds it there;
-- `IsConnected` of a client is true from the completed connect on, not from the opening of the socket
-- in `async_connect`; an erasure from the roster while `send_roster` loops over it counts as undefined,
-- also where it is of another element than the loop's (a client that cannot be told is erased before
-- the loop, when it is to be told its identifier); every thread of the echo server's pool can be joined.
--
-- Bounds and fuel. `update` recurses on the count of messages that the code compares with its bound,
-- so no fuel is added. `receive` runs a given number of reads, and its theorems give the number that a
-- sequence of frames needs: one for a header, one for a body that is not empty. The runs of the
-- sending half, of the servers and of the echo client's program are over lists of events of any
-- length, and the endless loops of the programs are cut off after any number of turns. A request of
-- the echo client is over after three completed operations, and further steps change nothing; `close`
-- goes on, and does not exit, while there is a work object or a request under way. The loops
-- over the cells of the map go over the ranges that the code computes. A number is printed with ten
-- digits at most, as many as a uint32_t has.
--
-- Not modelled: what the library, the server framework and the game print on the terminal; the engine and its
-- view, copies of another project's libraries (olcPixelGameEngine.h and olcPGEX_TransformedView.h),
-- whose calls are parameters; floats, of which nothing is assumed, so no theorem says how far an object
-- is from a wall; the order of an unordered_map (it is that of a list; what server and clients agree
-- on is stated without it, in Game/Players); threads that cannot be started.
pub mod Prelude
pub mod Queue
pub mod Scramble
pub mod Message
pub mod Connection
pub mod Server
pub mod Client
pub mod Game
pub mod Echo
