-- ===== src/Lib.antt =====
-- The 2GIG GC3 integration for Home Assistant, and its client library for the panel's local API.
--
-- The program. `pygc3` (pygc3/src/pygc3) speaks HTTPS and JSON with the alarm panel: `GC3Client` sends
-- one request per method, turns every failure of aiohttp into an exception of its own, and parses the
-- answers to typed models. The integration (custom_components/gc3) polls the panel through a client
-- in `GC3Coordinator`, which keeps the snapshot of the last good poll, the night flag that the panel
-- cannot report, and the supervision counters behind the repair issues. The entities read the
-- snapshot; the alarm panel entity sends commands through the client, sets the night flag and asks
-- for a poll. The config flow tries a client against the panel before it stores its data. The scripts
-- under tools/ look at a panel from outside: they pair with it, listen to its event stream, and look
-- for it by mDNS.
--
-- The files.
--   Prelude and its children: lists, texts (lists of code points), dicts in insertion order,
--     integers, and the Boolean tests, with the lemmas the components share.
--   Python/Json: JSON values with `bool()`, `or`, `str()`; Python/Effects: exceptions as values,
--     and methods that keep what they wrote before a raise (`Exec`).
--   Pygc3/Models: pygc3/src/pygc3/models.py, each `from_json` a function of the same name as its
--     class. Pygc3/Parsing is about entries that are well formed,
--     Pygc3/Wire about what a status and a zone have of their JSON.
--   Pygc3/Client: pygc3/src/pygc3/client.py. A method maps a `World` (the client's fields, the
--     open aiohttp sessions, the requests sent so far) to a result and a new `World`.
--     Client/Transport has what is exchanged with aiohttp, Client/Session the constructor,
--     `close`, `_ensure_session` and `_headers`, Client/Exchange `_request` and `_safe_message`.
--     Failures, Lifecycle and Listing are about failed requests, the sessions over a client's
--     life, and the listed zones.
--   Gc3/Const: custom_components/gc3/const.py. Gc3/Setup: setting up, unloading and reloading an
--     entry (custom_components/gc3/__init__.py), with Setup/Ready.
--   Gc3/Coordinator: custom_components/gc3/coordinator.py; Coordinator/StateMap is
--     `map_alarm_state` and Coordinator/Tracking the supervision bookkeeping. States, Streaks,
--     Outages, Registry, Polling, Monitor, Reloads, Snapshots and Reordering are about the
--     alarm state, one update of the counters, runs of polls, the issue registry, the polls, a
--     monitor that counts in one function, the issues that an earlier coordinator left, what a poll
--     returns, and the order of the listed zones. Gc3/Lifetime is about polls and
--     commands in any order; in Gc3/Interleaving commands also come between the two requests of a
--     poll, Interleaving/Races is about that, and
--     Interleaving/Outage about zones that stay lost.
--   Gc3/AlarmControlPanel: custom_components/gc3/alarm_control_panel.py. Commands, Wire and
--     Night are about how a command ends, what it sends, and the night state over polls and
--     commands.
--   Gc3/BinarySensor: custom_components/gc3/binary_sensor.py; BinarySensor/Classes has the
--     labels, BinarySensor/Order the order of a batch. Labels, Sorting, Sync, Entities,
--     Arrivals and Built are about them, the listener `_sync_zones`, the entities, the listener
--     over a run of polls, and which sensors can be built. Gc3/Displays goes from the panel's
--     answers to what the entities show.
--   Gc3/Sensor: custom_components/gc3/sensor.py, with Sensor/Count.
--   Gc3/ConfigFlow: custom_components/gc3/config_flow.py; ConfigFlow/Schemas has the schemas of
--     the forms. Steps, Typing and Stored are about what a step lets through, the exceptions of
--     a step on a form that passed its schema, and the data of an entry.
--   Gc3/Platforms: the setup of the three platforms, with Platforms/UniqueIds.
--   Gc3/Entity and Gc3/Diagnostics: the device information of custom_components/gc3/entity.py,
--     and custom_components/gc3/diagnostics.py.
--   Tools/Mdns: tools/mdns_probe.py, `decode_name` in the file itself, the rest of the DNS codec
--     in Mdns/Message, the sniffing and querying phases with `main` in Mdns/Phases, and
--     `phase_enumerate` in Mdns/Services. Mdns/Halting is about the loop of `decode_name`,
--     Mdns/Names and Mdns/RoundTrip about names and queries that are read back. Mdns/Format is
--     the wire format of RFC 1035 as relations on the bytes of a packet, and Mdns/Reading and
--     Mdns/Layout show that what is laid out by it is what is read. Mdns/Sniffing is about what is
--     counted and the negative verdict.
--   Tools/Sse: tools/sse_probe.py. Sse/Framing cuts the bytes into frames, Sse/Frames has
--     `StreamResult` and `_record_frame`, Sse/Streaming `stream`, Sse/Verdict the polls and
--     `verdict`, and Sse/Program with Program/Subscriptions the subscriptions, the race of
--     variants and `main_async`.
--     Chunks, Content and Windows are about the cuts of the bytes, Counting, Counts, Silence,
--     Advising, Connecting and Racing about the counts, the longest silence, the advice, retries
--     that get through, and the talkers of a race of variants.
--   Tools/Http: what the pairing tools exchange with `requests`. Tools/Pair: tools/pair.py, with
--     Pair/Commands, its `main`, and Pair/Probing. Tools/Experiments: tools/pairexp.py and
--     tools/pairnew.py, with Experiments/Guard.
--   Witnesses: the theorems at concrete inputs.
--
-- What stands for code of others. The panel and aiohttp are one function `Env.panel` of the
-- requests sent before and the request at hand, to an answer or a failure; every statement holds
-- for all such functions. Python's printed form of floats, lists and dicts is `Env.repr`. Of Home
-- Assistant: the base class of the coordinator writes `Coordinator.last`; the entity registry is a
-- function from unique ids to entity ids; the issue registry is the list of the calls made of it;
-- `async_redact_data` is `Reporting`; whether a flow aborts on a unique id is a function of that
-- id; a request for a refresh is counted; what `async_config_entry_first_refresh` makes of the
-- first poll is `FirstRefresh`, and the other calls made of Home Assistant are a list. What
-- voluptuous documents of a form that passed its schema is `Conforms`. In the tools, `requests` and
-- the panel are one function `HttpEnv.panel` in the same way; Python's UTF-8 codec is `encode` and
-- `decode`, and `socket.inet_ntop` is `ntop`; what the clock and the socket of the event stream
-- give is a list of turns, with the times in milliseconds that the code reads.
--
-- Bounds. The loop of `decode_name` runs on fuel for 21 times the packet's length and one each,
-- which is enough by a theorem below. The loop that cuts the buffer into frames runs on fuel for
-- one frame a byte, the strings of a TXT record on fuel for one a byte, and each takes a byte at
-- least; every other loop runs over a list. Numbers have no width in Python and none here. Letter
-- case, blanks and digits of texts are those of ASCII; the limit on the digits that `int` reads is
-- not modelled. The iteration order of a set is that of the list that stands for it.
--
-- Where service calls come between the requests of a poll, a request and its answer are one step, with
-- what the code does behind it up to its next request; other calls that run while an answer is under way
-- are not told apart from calls before or behind it.
--
-- The constructor of a zone sensor runs that of its base class, which raises a KeyError where the entry has
-- no host; those of the other entities are modelled for what they set beside it.
--
-- Not modelled: translations, logging and what is shown of a form beside its schema. Of tools/: the
-- sockets themselves, argparse, printed text, the file that pairnew.py writes, and the comparison that
-- pairexp.py prints of two JSON values, of which the values are kept.
pub mod Prelude
pub mod Python
pub mod Pygc3
pub mod Gc3
mod Witnesses
pub mod Tools
