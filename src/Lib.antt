-- ===== src/Lib.antt =====
-- A verification of browser-trace, the tracing service of this repository, and of one of the drivers
-- of its benchmarks. In `cdp` mode the service holds one WebSocket to Chrome's DevTools, turns its
-- events into log events, counts the bytes of every tab and host, records tabs, serves recordings and
-- thumbnails over HTTP, and uploads recordings. In `tinyproxy` mode it turns the lines of a proxy
-- into log events. Both modes follow a configuration file while they run.
--
-- Parts, and the files that model them:
--
-- Base: Boolean tests, equality of keys (`Key`), lists, signed integers over the native naturals,
-- text as lists of code points with Python's `strip` and `split`, statements that change a state and
-- may raise (`Exec`), invariants of statements (`Keeps`), and a stable sort in descending order.
--
-- Dict: Python's `dict` in insertion order, as an association list.
--
-- Traffic (browser-trace/traffic.py): `Traffic` is the record of the module's globals, and each
-- function of the module that changes it, `open_tabs` and `top_hosts` have a definition with its
-- name. `_add_bytes`, `_count_request`, `_bucket`,
-- `_fallback_host` and `_host_of` are `add_bytes`, `count_request`, `bucket`, `fallback_host` and
-- `host_of`. An object of a table that the source mutates is changed at its key.
--
-- Connection (browser-trace/cdp.py): `Connection` is the class. `call` is cut where it awaits:
-- `begin_call` runs up to the wait, `resume_call` is one wake of the waiter. Futures are a store of
-- their own, so that a reply and a waiter meet in the same future. Commands that were written are a
-- list.
--
-- Upload (browser-trace/upload.py, and `run_record` of browser-trace/main.py): the actions of an
-- upload and how it ends, as a function of what each attempt meets.
--
-- Monitor (browser-trace/main.py in `cdp` mode): State holds the globals, the log and the calls of
-- the recorder; Emit, Navigation, Captcha and Reports hold the functions below `handle_event`; Arms
-- has one definition for each arm of `handle_event`; Events has `handle_event`, `handle_response`
-- and the teardown in `connect_cdp`. Steps are what can happen to the service, in any order.
--
-- Recording (browser-trace/recording.py): `Recorder` is the table of active recordings with the
-- recording objects, each under its number. `start_recording`, `handle_screencast_frame` and
-- `frame_holds` are in the file Recording, the end of recordings in Recording/Stopping.
--
-- Thumbnail (browser-trace/thumbnail.py): `Thumbnailer` is the class with the captures that are under
-- way and the history of what they returned. `capture` is cut where it waits: `begin_capture` runs up
-- to the lock, `enter_lock` up to the screenshot, `finish_shot` to the end. Screenshot has
-- `_screenshot`, and `handle_thumbnail` of the server.
--
-- Logs (browser-trace/logs.py): `configure` on the handlers of the logger, and `read_all` on the
-- characters of the log file.
--
-- Config (browser-trace/main.py): `Config.from_file` on the text of a file; Config/Applying has
-- `apply_config`, which sets the logger of Logs and the directory of the recordings; Config/Watcher has
-- the body that `watch_config` and `watch_config_thread` share, one turn of the loop for each poll.
--
-- Server (browser-trace/server.py): the listing of recordings, the paths that are served, and the
-- limits of the request for traffic. A path is the list of its names; what `resolve` and `is_file`
-- return or raise is the argument `FileSystem`.
--
-- Tinyproxy (browser-trace/main.py in `tinyproxy` mode): a line, its class, and the event that it
-- becomes. Prefix and Stripped are about the regular expression that takes off date, time and process.
--
-- Modal (bench/modal/modal_bench.py): the daemon of the benchmark, with the sandboxes that run. A reply
-- is its kind and the text in it that is not fixed.
--
-- The parts meet as in the source: an arm of `handle_event` calls the handlers of Traffic and sends
-- commands over Connection; a reply goes through `take_reply` to `handle_response`; a closed tab
-- comes back from Traffic and becomes a log event; the watcher applies what `from_file` reads through
-- `configure` of Logs; the level of a line of the proxy is looked up in the table of `apply_config`.
--
-- Outside the source: `urlsplit` and `str.lower` are the fields of the parameter `UrlLib`, where
-- `urlsplit` may raise, `str.upper` and `int` those of `TextLib`, the character classes of regular
-- expressions those of `Classes`, and the coding of JSON the parameters `dumps` and `loads`; whether a
-- write to the socket or to a file raises, the times of a call, whether ffmpeg succeeds, what an HTTP
-- attempt meets, what a poll finds on disk, and what the SDK of a benchmark does are arguments. The
-- Monitor keeps the calls of the recorder as a list and takes them to return; the Recorder is studied on
-- its own.
--
-- Bounds: two loops run on fuel: the three attempts of an upload, which the source counts down in the
-- same way, and the wait for Chrome in Modal, whose fuel is the half seconds up to the deadline and
-- one more. Sizes that CDP reports are integers, and the totals are naturals, as Python's own integers
-- have no bound.
--
-- Not modelled: the files and the ffmpeg command of the recorder, symbolic links, the formatters of the
-- log and the exporter of telemetry, the tasks of `run` and its end, the command line of `main`, the
-- drivers for Daytona and E2B, and the JSON forms of what is sent and served.
pub mod Base
pub mod Dict
pub mod Traffic
pub mod Connection
pub mod Upload
pub mod Monitor
pub mod Recording
pub mod Thumbnail
pub mod Logs
pub mod Config
pub mod Server
pub mod Tinyproxy
pub mod Modal
