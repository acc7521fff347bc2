-- ===== src/Lib.antt =====
-- The Grid is a terminal program for a shared board of encrypted notes and for live encrypted
-- sessions between two people. A server keeps the board and passes frames on; clients hold the keys.
-- This library models the parts that both sides rely on, from the Python code in src/the_grid.
--
-- Parts and files:
--   Prelude     shared tests, lists, association lists, and the exceptions of the program as values.
--               `Result A` is what a call returns or raises; `reraise` is `except (TypeError,
--               ValueError) as exc: raise ...`.
--   Bytes, Text bytes and strings as lists of native numbers, with the codecs that the code calls.
--   Protocol    src/the_grid/protocol.py: `encode_fields` and `decode_fields`, the encoding that every
--               message to be signed or sealed goes through (Fields); unpadded base64url (Base64);
--               outer frames as dicts of JSON values, with the checks of their fields (Frames), and
--               their text as `encode_outer_frame` writes it (Json).
--   Crypto      src/the_grid/crypto.py. The primitives are a record of functions, `Primitives`, and
--               what their documentation promises is a second record, `Laws`; every theorem that needs
--               them takes both. The laws are lengths, decryption of what was encrypted, and that the
--               X25519 exchange commutes. No theorem assumes that a forgery is impossible.
--   Models      src/the_grid/models.py: `CloseReason`.
--   Phrases     src/the_grid/phrases.py: the normal form of a phrase, the generator and the check of the
--               packaged word list, whose bytes and SHA-256 digest are arguments.
--   Access      src/the_grid/access.py: display ids (Display), and contexts, keys, setups, proofs and the
--               one-use challenge verifier (Proof).
--   Hub         src/the_grid/hub.py: `BoardStore` (Store). The SQLite tables are lists of rows, a
--               method takes the tables and the time and returns the tables beside its result, and
--               each runs as one transaction, as it does under the lock of the source. The keys and the
--               associated data of its messages stand in Messages.
--   Sessions    src/the_grid/sessions.py: the payload codec (Payload), frames, nonces and associated
--               data (Frames), `LiveSessionChannel` (Channel), the code that people compare
--               (Verification), the handshake (Handshake), and a session from its first hello to its
--               last text (Conversation). A method of a channel returns the channel beside what it
--               returns or raises.
--   Relay       src/the_grid/relay.py. RateLimiter is `_WindowRateLimiter`; State has the server, its
--               connections, reservations, rooms and routes; Startup the checks before it runs;
--               Events the bounded queues; Displays, Routing, Checks and Routes the calls of the
--               server; Lifecycle how connections come and go, maintenance and rotation; Handlers,
--               BoardHandlers and SessionHandlers the handlers of frames; Dispatch `_handle_frame`.
--               A connection is a number that others refer to, and `heap` has its fields. A call
--               takes the server and returns it beside what it returns or raises (`Action`), and Keeps
--               has what such calls preserve. Consistency is how rooms, routes and connections refer to
--               one another, and History what may happen to a server, one event after another.
--   Terminal    src/the_grid/terminal.py: the sanitising of text and the writing of durations.
--   Tests       the theorems at concrete inputs, with a toy instance of `Primitives`; those of the
--               board stand in Hub/Store/Tests.
--
-- How they meet: the handshake makes a `SessionMaterial` on both sides, `new_channel` makes a channel of
-- it, and two channels talk through frames. Sessions/Channel/Network runs two channels over queues that
-- keep the order of each direction, under a schedule that chooses who sends or receives next. An
-- access setup makes a verifier state for the server and a phrase for the clients, and the generation
-- of it is what `bind_access_generation` ties the board to. The relay keeps one challenge verifier per
-- connection and one board, and carries the hellos, proofs and frames of two sessions' ends unread.
--
-- Bounds: all loops are recursion on a list or on a number of fields, but for the decimal digits of a
-- number, which have the number as fuel and need fewer steps.
-- Counters are native numbers with the tests of the source: a send counter above 2 ^ 64 - 1 raises.
-- Fields are at most 2 ^ 20 bytes and 63 to a message.
--
-- Left out: argument checks with isinstance, which hold by typing; errors of SQLite other than a
-- broken primary key, and files; locks and threads, since each method holds its lock throughout; the
-- parsing of JSON, and the JSON of board messages and verifier states; client.py and the server's
-- runtime, its configuration, its screens and command line, and of terminal.py the wrapping of lines
-- and the terminal itself. Of relay.py, the tasks that read,
-- write and send heartbeats, sockets and TLS are left out. A call of the relay is taken as one step.
-- In the source a call gives way where it awaits the tasks of a broadcast or the end of connections that
-- it closes, and what other calls do meanwhile is not modelled; its other awaits run through to the
-- queues, which do not block. A step reads the clock once; and its times are whole
-- milliseconds, where the source has floats. Times are not negative. The random source is an argument.
pub mod Prelude
pub mod Bytes
pub mod Protocol
pub mod Hub
pub mod Text
pub mod Crypto
pub mod Models
pub mod Phrases
pub mod Access
pub mod Sessions
pub mod Relay
pub mod Terminal
pub mod Tests
