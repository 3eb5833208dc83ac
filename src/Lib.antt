-- ===== src/Lib.antt =====
-- niba 2.0 is a game server and its test client: players log in over WebSocket, create a character,
-- learn, fuse and equip magics, fight enemies and send each other messages. This library models the
-- core of both programs, translated from the C++ sources.
--
-- A request runs through server/server_processor.cpp: `dispatch` refuses it if it comes too early,
-- parses it, validates it by shared/message.cpp and hands it to the overload of `process` for its
-- type. The handlers change the session (shared/sessiondata.h), call the database through
-- server/db_accessor.h, register in server/session_map.cpp and run fights by shared/fight.cpp. The
-- client (client/client_processor.cpp) merges the response and changes its own copy of the session;
-- it fights each fight again with the random numbers that the server recorded.
--
--   Prelude: shared names. Int has integers over the native numbers, Word the 32-bit `int` that
--     wraps around, Run the outcome of code (a value, a fault, or no fuel left), Exec code over a
--     state that may throw, Draws code that draws random numbers, Double the operations of
--     `double`.
--   Structs, GameData: shared/structs.h, shared/sessiondata.h and the tables of shared/gamedata.h.
--   Fight: shared/fight.h and shared/fight.cpp. Fighter has `magic_ex` and `fightable`, Damage has
--     `damage_calc`, Clock the choice of attacker and defender, Rounds the loop of `fight::go`,
--     Sources shared/rng.h, Setup and Start the preparation of a fight and the constructor. Replay
--     compares two sources of random numbers; Alive and its children treat who is alive, Fuel the
--     bound on the rounds, Ticks `ticks_calc`, and Ends with its children when a fight comes to its
--     end.
--   Message: the structs of shared/message.h. Validate has the `validate` members of
--     shared/message.cpp, States the states that they ask for, Loadout the rule for equipped
--     magics, Newcomers the rule for created characters.
--   Wire: the JSON of the messages. Members, Stats, Structs, Magics and Tables have the conversions
--     of shared/structs.h, RequestBodies and ResponseBodies the members of shared/message.cpp,
--     Kinds, Requests and Responses `base_message` and `dispatcher` of shared/message.h; Answers
--     sets what the server writes beside what the client reads.
--   Server: SessionMap is server/session_map.cpp and Online its abstract view. World is the state
--     that a processor works on and the interface of the database. Account, Magics, Play and
--     Dispatch have the handlers of server/server_processor.cpp, with shared/calcdelay.h in Play.
--     Phases, Unmoved and Lifetime treat the states of a session, Supplies what a valid request
--     finds, Refusals the refused requests, Answered the answered ones, Fusion the write at the end
--     of a fusion, Pauses the requests that come too early. Queue is the write queue of
--     server/server_session.cpp, with Order and Drain. Connection is the loop of a session over its
--     requests, and its end; Config is server/config.h, and its Settled what the settings come to;
--     DataInit is server/data_init.cpp, and its Loaded what the tables hold; System has all
--     sessions of server/main.cpp and the steps they take, Handled, Claims, Releases and Owners
--     treat whose name is whose.
--   Database: server/db_accessor.cpp over the statements of PostgreSQL. Passwords has the salted
--     hash, Accessor the members, as an instance of the interface of World; Tables says what the
--     statements do to the tables of schemas/niba_player.sql; Accounts, Registration and Fusions
--     rest on that.
--   Client: Processor is client/client_processor.cpp, Responses `process_response` of its header;
--     Agreement (fights), Follows (fusions), Login and Learning set it beside the server, Exchange
--     and Reorders with the JSON between the two. Session is the request and the body of the read
--     loop of client/client_session.cpp, Reading the loop; Waiting treats the promise that its main
--     thread waits for, Accepted the checks on both sides. Commands is `handle_cmd`, and its Typed
--     what a player types for each request. Main is the main loop of client/main.cpp, its Script
--     what becomes of the lines that are typed, and Pacing sets its wait beside the server's.
--   Printing: the operators `<<` of shared/structs.h, as texts.
--   Util: shared/util.h and shared/util.cpp.
--   Tests: test data and the theorems at concrete inputs.
--
-- An operation on `int` wraps around at 32 bits; where it leaves the range C++ is undefined. A
-- division by zero, an access past a vector, the use of an invalidated iterator and an absent
-- optional are the fault `undefined`; a failed BOOST_ASSERT is `asserted`, and `asserts` says
-- whether the build has it; an exception is `thrown`. `double` is a record of operations without
-- laws, so that nothing depends on rounding. The rounds of a fight are bounded by fuel, since a
-- fight in which nobody can hurt the other never ends; the theorems on fights hold for every fuel
-- with which the fight returns, and Fight/Ends says of which fighters and sources there is enough.
-- In the system of all sessions a request is one step: what the handlers of two sessions do between
-- their waits for the database is not interleaved. In the write queue the steps are those between
-- two waits. A time point is a number of nanoseconds, without a bound.
--
-- The library nlohmann::json is an interface of operations with the laws that its documentation
-- gives for values that are built and then read; the numbers in them are those of an `int`. What a
-- loop over a JSON value goes through is a parameter, of which the arrays alone are known.
--
-- PostgreSQL, through ozo, and OpenSSL are an interface of one operation to each statement or call.
-- A statement may fail; what it does to the tables where it succeeds is a law. A transaction works
-- on a state of its own until it is committed.
--
-- The main loop of the client runs on fuel, since an empty line holds it up for ever; one more than
-- the number of the lines is enough otherwise. What it calls of the session is an interface.
--
-- Parameters of the model: the engine of random numbers, `weighted_rand`, the database (each
-- operation may fail or throw), the text of JSON, the clock, which sessions are destroyed, and what
-- boost::split, std::stoi and string streams do with a command's line. `dispatch` takes what its
-- text parses to; `dispatcher` of Wire is such a parse.
--
-- Not modelled: the inside of PostgreSQL, the WebSocket transport, threads, TLS, connections,
-- logging and the output on the console: they are calls of third-party libraries.
pub mod Prelude
pub mod Util
pub mod Structs
pub mod GameData
pub mod Printing
pub mod Fight
pub mod Message
pub mod Wire
pub mod Server
pub mod Database
pub mod Client
pub mod Tests
