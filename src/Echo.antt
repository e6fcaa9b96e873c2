-- ===== src/Echo.antt =====
-- async_asio_tcp_echo_server: a client sends its name and a message in one line, and is greeted.
-- Characters are their codes.
pub mod Text
pub mod Service
pub mod Client
pub mod Acceptor
pub mod Greeting
pub mod Server
pub mod Program
mod Tests
