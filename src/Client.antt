-- ===== src/Client.antt =====
-- include/eshet.hpp and include/eshet/commands.hpp: the client.
pub mod State
pub mod Outcome
pub mod Commands
pub mod Body
pub mod Messages
pub mod Api
pub mod Start
pub mod Waiting
pub mod Connection
pub mod Register
pub mod Loop
pub mod Steps
pub mod Answers
pub mod Sent
pub mod Invariant
