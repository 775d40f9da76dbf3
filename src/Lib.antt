-- ===== src/Lib.antt =====
-- Models of webrtc-doctor, a command-line program that tests whether a deployment of STUN, TURN and
-- ICE servers works.
--
-- The program. crates/probe-core has the checks, and crates/webrtc-doctor the command line. A command
-- builds a pipeline of checks and a context; the pipeline runs the checks in order on the one context,
-- and skips a check when one that it requires has not passed. A check talks to a server and gives a
-- result with a status. The report has the results; its verdict is the exit code.
--
-- The files, with paths below crates/probe-core/src:
--   Stun and its children: stun_codec.rs, the header, the attributes, the addresses, the error code.
--   Turn and its children: turn_codec.rs, the message builders and the Allocate response parser.
--   Binding: the request and the parser of checks/stun.rs.
--   Echo and its children: the messages, payloads, statistics and the collecting loop of
--     checks/turn_echo.rs.
--   Report: result.rs, and the verdict and the counts of pipeline.rs.
--   Pipeline: the trait of check.rs and the runner of pipeline.rs.
--   Probe: the context of check.rs, the platform below the checks, and the monad of a check's body.
--   Checks.Dns, Checks.Stun, Checks.TurnAlloc, Checks.TurnEcho, Checks.IceGather, Checks.Signaling,
--     Checks.Dtls: the `run` of each check in checks. Checks.Runs: pipelines of main.rs.
--   Checks.TurnsAlloc, Checks.Framing, Checks.Tls: checks/turns_alloc.rs, its frames, and the stream
--     that they are sent on.
--   Command and its children: crates/webrtc-doctor/src. Command.Target is target.rs, Command.HostPort,
--     Command.Secret, Command.Single, Command.Full and Command.Main are main.rs, Command.Render and its
--     children are render.rs, Command.Split and Command.Number what they use of `str`.
--   Prelude, Bytes: helpers on results, lists, texts and big-endian numbers.
--   Tests: the theorems at concrete inputs.
--
-- How the code is modelled. A buffer is a list of numbers, a byte is below 256, and a u16 or u32 is
-- taken modulo its width where the code casts. A `Result` of the model is a value, an error, a panic
-- (an index or a range out of bounds) or `stuck`, a loop that ran out of fuel. The loops over attributes
-- have as much fuel as the section has bytes, which is enough since a round takes at least four. A
-- check's body is a function of the context and the world; it returns its result with the context, or
-- it panics. tokio, std, if-addrs, the digest crates and the derived formatting of errors are the
-- fields of a record, Platform, that the checks take; what they answer is arbitrary. Times are in
-- nanoseconds. What the socket and the clock give to the collecting loop of the echo check is a finite
-- list of rounds, one of which begins at the deadline or after it: each operation of the platform
-- returns, and the clock reaches every deadline. The loop is stuck where it asks for a further round, and
-- the theorems on the check show that its own tests keep it from that. A random id is a function of the
-- clock and an address, as in the code.
--
-- What runs under a timeout (a TLS connection, a frame that is awaited, a DTLS handshake) is a Task: it
-- finishes, fails, or is cut off. rustls, tungstenite and webrtc-dtls are the fields of the records Tls,
-- WebSockets and Dtls; SHA-256 is a field with the length and the range of its digest. A command is a
-- Program: it goes on, fails with an error, or panics. The server mode of `dtls` fails, or it does not
-- end and is described by the peers that it has accepted. A line that standard output refuses is a panic,
-- as in `println!`; the rendering of JSON and of colours are fields of Services.
--
-- Not modelled: clap and the order of its checks, the log, and the prompts and messages on standard
-- error, which is taken to accept them; the inside of serde_json and of colored; the certificates that
-- rustls trusts; and the inside of the handshakes, which belong to other crates.
pub mod Prelude
pub mod Bytes
pub mod Stun
pub mod Turn
pub mod Report
pub mod Pipeline
pub mod Binding
pub mod Echo
pub mod Probe
pub mod Checks
pub mod Command
pub mod Tests
