-- ===== src/Lib.antt =====
-- NitePR5: the Python core of a memory editor for a console, `web/nitepr5_core`. A `Session` keeps
-- one connection to the console through a transport; on top of it stand peephole reads and pokes,
-- the list of watches that the user interface polls, the list of freezes that it ticks, and the
-- hunt for a value: a first scan, scans that narrow it, undo, and the rows. Freezes can be saved as
-- a cheat file, whose mods are switched on and off. The web application, `web/app.py`, serves one
-- session over HTTP.
--
-- Which file models which part:
--   Constants, Types, Errors  web/nitepr5_core/constants.py, types.py and errors.py. The field
--                             `data` of the Python classes is `content`.
--   Scan                      web/nitepr5_core/scan.py: Scan/Parse reads the names and numbers of
--                             a request, Scan/Match compares u32 values, Scan/Ranges merges ranges,
--                             Scan/Segments splits them for the protocol, Scan/Classify chooses the
--                             memory to search, Scan/Bitmap sizes the snapshot's bitmap.
--   Cheat                     web/nitepr5_core/cheat.py: Cheat/Hex the hexadecimal texts, Cheat/File
--                             `parse_cheat_dict` and `cheat_to_dict` over the JSON values of
--                             Cheat/Json, Cheat/Modules the base of a module and the file made from
--                             the freezes.
--   Transport                 `class Transport` of web/nitepr5_core/transport.py, as the record of
--                             operations that the session is written over; Transport/Mock is
--                             `class MockTransport`, an implementation of it in memory, and
--                             Transport/Ps5dbg is `class Ps5dbgTransport`, over the ps5dbg package
--                             as the record `Package` of its operations and its exceptions.
--                             Transport/Contract says what both promise to the session.
--   Wire                      the functions of scan.py that speak to the console's socket, and
--                             `proc_write_phased` of transport.py, over a connection `Conn` with
--                             the package's `sendall` and `recv_exact`: Wire/Pack packs the
--                             numbers, Wire/Requests has the requests, Wire/Stream a connection
--                             that holds a text of bytes. The laws of a connection, `Reads` and
--                             `Speaks`, say that it gives what came in, in order.
--   Session                   `class Session` of web/nitepr5_core/session.py: Session/Lock is
--                             `_hold_io` and the busy flag, Session/Connect the connection and the
--                             target, Session/Memory `maps`, `read` and `write`, Session/Pins the
--                             watches and the freezes, Session/Hunt the five scan methods,
--                             Session/Cheats the loaded cheat file and its toggles, Session/Calls
--                             the calls of all of them in sequence. Session/Truthful follows
--                             NotConnected from the transport to the callers.
--   Web                       web/app.py: Web/Views the JSON that it answers with, Web/Inputs the
--                             hexadecimal bytes and the cheat file names that it takes, Web/Routes
--                             the requests and their handlers, Web itself the status that each
--                             exception is answered with.
--   Host                      web/nitepr5_core/host.py; Host/Scripts has the search for the host
--                             that scripts/check_ps5debug.py and scripts/send_ps5debug_elf.py each
--                             write out for themselves.
--   Trace                     web/tracing.py: which paths are traced and what `redact_value` makes
--                             of a value before it leaves the computer; Trace/Setup is
--                             `configure_tracing` over the environment.
--   Base                      lists, dictionaries, Python's `str` and exceptions.
--
-- A method is a function from the state to an outcome and the state after it (Base/Exec). An
-- outcome is a value, an exception, or `blocked` where the thread would wait for ever; the state is
-- kept in all three, so what an exception leaves behind is part of the model. `try`/`finally` and
-- `with` are `ensure`, and `except` is `catch`. A thread is a number, the `get_ident` of the code.
-- The calls of several threads run one after another: a switch of threads within a call is not
-- modelled, but a call meets the lock and the busy flag in any state.
--
-- A number of the code that is never negative is an ℕ. An argument that the code tests with
-- `isinstance` is a `Dyn`. A dictionary is an association list in the order of insertion.
--
-- Fuel: `split` of Scan/Segments makes one round for each chunk, and gets one more than the number
-- of chunks; `walk` of Transport/Mock/Scanning moves by the alignment, which is at least 1, and
-- gets one more than the length of the segment. `drain_result_blocks` of Wire/Requests reads blocks
-- until an end mark that the other side sends: its fuel is a parameter, a loop out of fuel is
-- `blocked`, and more fuel than there are blocks is enough. `drain_progress` makes the 10,000,000
-- rounds that the code allows, so its number is the code's and no fuel.
--
-- Not modelled: the ps5dbg package and the sockets below it, which are parameters; `settimeout`
-- raising on the way into `scan_wait`; the reading and writing of cheat files on disk, for which a
-- JSON value stands, `cheat_save` and its route; digits outside ASCII in an offset, which `int` of
-- Python takes and the model refuses; the HTTP client of the plugin and its three routes; the routes
-- that serve files, list directories or read the environment, and the checks of pydantic before a
-- handler runs; the calls of the package langsmith; `main` of the scripts; the log
-- lines, the texts of messages and the timeouts; the plugin in C and the user interface in
-- JavaScript.
pub mod Base
pub mod Constants
pub mod Types
pub mod Errors
pub mod Scan
pub mod Wire
pub mod Transport
pub mod Session
pub mod Web
pub mod Trace
pub mod Host
pub mod Cheat
pub mod Tests
