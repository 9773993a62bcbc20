-- ===== src/Lib.antt =====
-- A model of eshetcpp, a client library for ESHET, with the theorems that make it correct.
--
-- The client (include/eshet.hpp) is an actor: other threads push commands, replies, the bytes that
-- a socket received and notices of its end to the actor's channels, and its own thread waits on
-- them, one at a time. It writes messages with SendBuf and sends them as frames; it cuts the bytes
-- of the server into messages with Unpacker and reads them with Parser; and it pushes the results
-- to the channels of the program. When a connection ends it makes a new one, with a growing delay,
-- and registers all that was registered again.
--
-- Base         lists, bytes, exceptions and maps on the native numbers; Base/SortedMap is std::map
-- Msgpack      the operations of msgpack-c that the code calls, as a parameter
-- Data         include/eshet/data.hpp: Result, StateResult, StateUpdate, AnyResult and Call; its child
--              Convert is convert_variant of include/eshet/util.hpp, Handle is oh_with_zone and the
--              conversions of HasMsgpackObject, and Values the comparisons of the variants, the
--              printing and Error::what
-- Wire         include/eshet/parse.hpp (Parser, SendBuf) and include/eshet/unpack.hpp (Unpacker); a
--              method is the function of its name, and the object is its last argument
-- Stringize    include/eshet/msgpack_to_string.hpp: the visitor, one call at a time
-- Client       include/eshet.hpp and include/eshet/commands.hpp. State: the fields, the commands and
--              the effects. Outcome: the monad of code that returns, throws or waits. Commands:
--              CommandVisitor, get_id, send_send_buf. Body and Messages: handle_message and
--              handle_reply. Api: the public methods. Start: the constructors. Waiting: the waits and
--              the case on_message. Connection: connect, cleanup_connection, do_hello. Register:
--              reregister and wait_for_reply. Loop: loop and run. Steps: the changes that this code
--              makes as a relation between clients, with a child for each part of the code. On
--              these steps stand Invariant (the fields; its child Rounds is the loop of run without
--              its fuel), Answers (the replies to each channel of the program) and Sent (the bytes
--              that went out)
-- Log          include/eshet/log.hpp
-- Tools        src/utils.cpp (Host), src/cli.cpp (Json, Cli) and src/complete.cpp (Complete). Session is
--              what a program sees and does: the environment, its client, the values that come to
--              its channels, and its output. main and each subcommand are functions on a Session.
-- Tests        a small msgpack and network (Setting), and the code at concrete inputs: Wire, Messages,
--              Serving for one connection, Runs for whole runs of a client, Steps for the relation,
--              Tools, and Trees for texts
--
-- State. A `Client` has the fields of ESHETClientActor; sockfd is none for -1, and ping_timeout and
-- idle_timeout are times in seconds. Behind them stand the clock, the number of system calls so far
-- and the list of effects: bytes sent, sockets closed, lines logged and pushes to the channels of the
-- program, in order. A channel of the program is a number.
--
-- Waiting. A `Turn` is one wait that returned: what arrived before it, the time, and which channel it
-- chose. A client is given the list of its turns; code that waits with none left is `blocked`, which
-- is neither a return nor an exception. What other threads do is the list of arrivals of a turn, so
-- that each interleaving is one list of turns.
--
-- Integers. Ids and lengths are cut to 16 bits and times of states to 32 bits where the code does it.
-- Bytes are natural numbers; a theorem says so where it needs them below 256.
--
-- Fuel. Unpacker.drain and the case on_message read at most one message more than the buffer has
-- bytes: a message takes three bytes at least. `run` makes one round for each turn at most, since each
-- round takes the turn of its wait_for. The other loops run over the list of turns or over a map.
--
-- Outside of the repository: msgpack-c is the record Msgpack, of which some theorems suppose that it
-- reads back what it packed (RoundTrips) or that a handle that was moved from keeps its object
-- (MoveKeeps, which the code relies on where it reads a value behind std::move), or that a clone is
-- visited as the object was (CloneCopies). connect, send and close are the record Network. The
-- channels and the receiving thread of actorpp are fields.
--
-- CLI11 and rapidjson are parameters of the tools: main takes what app.parse finds in the arguments,
-- and RapidJson gives the document of a text. Objects is what the tools use of msgpack-c.
--
-- Not modelled: what msgpack-c does in a conversion between an object and a C++ value (the record
-- Conversion stands for it), and the tests. CLI11 and Catch2 stand in submodules/ as copies of other
-- projects.
pub mod Base
pub mod Msgpack
pub mod Data
pub mod Log
pub mod Wire
pub mod Stringize
pub mod Client
pub mod Tools
pub mod Tests
