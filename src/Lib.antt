-- ===== src/Lib.antt =====
-- The ACARS print bridge: a Python program that receives ACARS messages for a flight simulator from
-- a Hoppie-compatible network, keeps them in a SQLite database and prints them on a thermal printer.
--
-- The parts and their files:
-- - Prelude, Text: lists and numbers, and the methods of `str` that the code calls. A text is a list
--   of code points. White space is Python's; letters and digits are those of ASCII, so `upper`,
--   `lower` and `isdigit` leave other characters alone.
-- - Hoppie (src/acars_bridge/hoppie): Types holds `MessageType` and `HoppieMessage`, Sanitize
--   `scrub_message_body`, Cpdlc `CpdlcPacket`, Blocks `_extract_blocks` and Parser `parse_response`.
--   What the code raises is the `raise` of a `Result`.
--   AtisText reads the requests and the replies about an ATIS, and Requests writes the requests and
--   the fields of the forms that carry them.
-- - Printing (src/acars_bridge/printing): Wrap holds `_wrap_lines` of the formatter, and Format the
--   rows of a strip.
-- - Network (src/acars_bridge/network.py): the networks and their profiles.
-- - Models (src/acars_bridge/models): Messages holds `MessageRepository` over its two tables, Settings
--   `SettingsStore` over its rows, and its Profiles src/acars_bridge/printing/profiles.py.
-- - Sim (src/acars_bridge/simconnect/monitor.py, src/acars_bridge/xplane/protocol.py): Snapshot and
--   Power hold the snapshot of the simulator and the decision whether the aircraft is powered.
-- - Sterile (src/acars_bridge/services/sterile.py): Compute holds the decisions from a snapshot and
--   Gate the class `SterileGate`, which holds prints back. `update_from_snapshot` is a reading under
--   the lock, a computation and a commit under the lock; another thread may run between.
-- - Services (src/acars_bridge/services): Fingerprint, PrintManager, Ingestion, WireSession,
--   StationIdentity and Outbound hold the modules of these names. A method of Outbound is a function
--   from the shared state to an answer or an exception, and the state after it.
-- - Tap (src/acars_bridge/tap): Extract turns an intercepted exchange into messages, Hosts holds the
--   block of the hosts file, and Proxy the HTTP messages of the proxy, the filling of the field
--   `from` and `_handle_client`. The coding of forms, the decompression and the server upstream are
--   arguments.
-- - Simbrief (src/acars_bridge/simbrief): Plan holds what a flight plan decides, and Watcher the class
--   `SimBriefWatcher`: its polls, locks, triggers of the final loadsheet and phases of a flight. What
--   the server answers is an argument, `none` for an error.
-- - Weather (src/acars_bridge/weather/auto_wx.py): Strips and AutoWx hold `AutoWxService`, which
--   prints the weather of a destination. Whether `print_ticket` raises on a strip is an argument.
-- - Bridge (src/acars_bridge/bridge/runtime.py): Events holds the queue of events and the toasts about
--   power and the sterile cockpit, and Runtime the pulse over the gate, the watcher and the weather,
--   the poll of the worker, and the commands that print, unlock, clear, toggle and refresh.
-- - Tests: runs at concrete inputs.
--
-- The parts meet as in the code: a response is parsed into messages; Ingestion stores each once by
-- its fingerprint, and its print is a job that the gate runs or keeps; the job formats the strip,
-- hands it to the printer and records the answer. The printer, the hash SHA-256, the time stamps and
-- the columns of the bitmap font are arguments, and nothing is assumed of them.
--
-- Bounds and fuel: `chunks` and `replace_noise` recurse on fuel that is the length of the text, and
-- each step takes at least one character, so it is enough. Quantities that the code holds as floats
-- are whole numbers: thousandths in a snapshot, ticks of the clock in the gate and in the watcher.
-- An inbound message whose MIN or MRN is 2^63 or more does not fit an INTEGER of SQLite, and its
-- insert raises. The numbers of a packet to send are natural: a stored number of the next downlink
-- that is negative ends a reply in the exception `beyond_model` of the model.
--
-- Threads: the gate's update is split where its lock is released. Each act of the runtime, a pulse, a
-- poll of the worker or a command, is one step; the code keeps pulses apart by a lock, and a switch
-- between its threads within an act is not modelled.
--
-- Not modelled: sockets, listeners, TLS, threads as such, the printers' devices and images, the
-- user interface, the companion's web server, the packets of the simulators, the updater, and the
-- operating system. The runtime's views of the settings and the status, its commands for settings,
-- profiles and printers, the texts of the SimBrief tickets, the watcher's status line and saved
-- state, the public downloads of the outbound service and the hotkeys have no model yet.
pub mod Prelude
pub mod Text
pub mod Printing
pub mod Hoppie
pub mod Network
pub mod Models
pub mod Services
pub mod Tap
pub mod Sim
pub mod Sterile
pub mod Simbrief
pub mod Weather
pub mod Bridge
pub mod Tests
