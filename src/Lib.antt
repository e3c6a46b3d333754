-- ===== src/Lib.antt =====
-- SeasonalWeather: a radio station that airs weather alerts. The model covers the parts that decide what
-- is on the air and who may change it; audio, network and wording are outside.
--
-- Prelude: texts as lists of character codes, dictionaries in insertion order, stable sorting, and the
--   sweep of a dictionary over a copy of its items, with the lemmas that the components share.
-- Health (seasonalweather/health_state.py): `HealthStateMachine` with its sources; Health.Evaluate has
--   `_compute_mode`, `evaluate` and the rounds of `run_forever`. A probe is a parameter that gives its
--   outcome; a clock is a number of microseconds that each call takes as an argument.
-- Locations (seasonalweather/same/locations.py): SAME location codes and the service area.
-- Same (seasonalweather/same/same.py): the header text and the bits of a burst; Same.Decode
--   (seasonalweather/same/decode.py): `HEADER_RE`, the bit reader and `_try_decode_message_at`. The
--   waveform and its demodulation are not modelled. The header pattern is read by structural recursion
--   on the locations, and the message loop on the decoder's own bound of characters.
-- Alert and Tracker (seasonalweather/alerts/active.py): `ActiveAlert`, its sort key, and `AlertTracker`
--   with its table in the database. The repository's calls (seasonalweather/database/alerts.py) succeed or fail as
--   `database_up` says; a repeated text in a child table also fails, and the rows come back in their own order.
--   `datetime.fromisoformat` is a parameter, and none is its ValueError.
-- Auth (seasonalweather/auth/): Auth has the records and credentials, Auth.Policy the scopes, routes
--   and addresses, Auth.Limits the checks on what a request asks, Auth.Repository the transactions on
--   the three tables, Auth.Clients the calls that manage clients, and Auth.Service the issue, the
--   return and the check of tokens. Auth.Credentials, Auth.Routes, Auth.Limits.Lifetime,
--   Auth.Repository.Kept and Auth.Service.Ended are the proofs about them. SHA-256, `ipaddress`,
--   `posixpath.normpath` and the text of an instant are the fields of `Libraries`; a random id and secret is an argument. A call that raises changes nothing.
-- Vtec (seasonalweather/alerts/vtec.py): the VTEC line, its tables in Vtec.Codes, and in Vtec.Toneout the
--   decision whether a product airs with SAME tones; none is the ValueError of `ToneoutPolicy`.
-- Commands (seasonalweather/api/commands.py and database/commands.py): `CommandStore` with its memory and its
--   table, and `EventBroker` in Commands.Broker. SHA-256 is a parameter, and a payload is its canonical JSON
--   text. Commands.Refinement and Commands.Runs state the table alone as the specification; rows that
--   housekeeping deletes stay in memory, so it takes no part in those runs.
-- Jobs (seasonalweather/broadcast/alert_audio_jobs.py): `AlertAudioDispatcher`. The worker is a state with
--   the await at which it stands; `Replies` is what the callbacks do at a step, and every call returns, raises an `Exception`,
--   or raises what `except Exception` does not catch.
-- Schedule (seasonalweather/broadcast/rwt_rmt.py and tests.py): when the weekly and monthly tests are due, and
--   in Schedule.Postpone the attempts at a blocked test, as a list of what each attempt meets; Schedule.Rounds
--   has the rounds of `run_forever` with the ISO week and the month of a time. Times are
--   microseconds of wall time; the ordinals are those of `datetime.date`. The monthly search makes 15 tries, as
--   the source does.
-- Inserts (seasonalweather/database/inserts.py): the table of announcements that the operator schedules.
-- Ledger (seasonalweather/alerts/cap_ledger.py): `CapLedger`; `fromisoformat` and `isoformat` are parameters, and
--   a database that is there does not fail. The table is shared, so other writers may replace its rows.
--
-- How the parts meet: Vtec.Toneout.Tracks has the tracks that a product cancels removed from the
-- Tracker. Tracker sorts and expires the alerts by Alert's functions; Same uses no Locations, as in the
-- source, where the encoder normalizes locations by itself; Auth.Clients and Auth.Service work on the tables
-- only through Auth.Repository; Schedule.Rounds runs the attempts of Schedule.Postpone at the due times of Schedule.
--
-- Simplifications: upper case, lower case and digits are those of ASCII; stripping knows every space.
-- Threads are not modelled: each call is one step, as the locks and transactions make it. The read-only
-- calls that only display records (`show_client`, `list_audit_events`, `public_dict`) are left out.
-- Not modelled: the sources of alerts, the cycle and its conductor, speech, the HTTP glue, the state file
-- of the test scheduler, and the other tables of the database.
pub mod Prelude
pub mod Health
pub mod Locations
pub mod Same
pub mod Alert
pub mod Tracker
pub mod Auth
pub mod Vtec
pub mod Commands
pub mod Jobs
pub mod Schedule
pub mod Inserts
pub mod Ledger
