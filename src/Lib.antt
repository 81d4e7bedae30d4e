-- ===== src/Lib.antt =====
-- A model of the OnStep adapter: the client that drives a telescope mount and a focuser through an
-- INDI server, the older adapter that drives them over a serial line, and the virtual mount that
-- the tests of the client run against.
--
-- Parts, and the code that each models (paths from the root of the repository):
--   Gu          onstep_adapter/indi_gu.py          the compact status text of `:GU#`
--   Snapshot    onstep_adapter/indi_status.py      one observation and its blockers
--   Status      onstep_adapter/indi_status.py      `IndiStatusReader.read`
--   Policy      onstep_adapter/meridian_policy.py  the meridian boundaries
--   Meridian    onstep_adapter/indi_meridian.py    `classify_meridian`
--   Supervisor  onstep_adapter/indi_meridian.py    `IndiMeridianSupervisor.tick`, a round of `_run`
--   Transport   onstep_adapter/indi_transport.py   the property store and the waits
--   Requests    onstep_adapter/indi_transport.py   requests and their confirmation (Requests/Values:
--               texts and numbers, Requests/Connection: the start and the end)
--   Stop        onstep_adapter/indi_stop.py        the verified stop
--   Watch       the callbacks and the sleep that the next two share
--   Tracking    onstep_adapter/indi_tracking.py    the verified enable of tracking
--   Guiding     onstep_adapter/indi_guiding.py     guide pulses (Guiding/Pulse has the loops,
--               Guiding/Correction the pulse for an offset)
--   Home        onstep_adapter/indi_home.py        go_home, park, unpark, park_to_home
--   Motion      onstep_adapter/indi_motion.py      the handle of a move in a worker thread
--   Focuser     onstep_adapter/indi_focuser.py     bounded moves of the focuser
--   Axis        onstep_adapter/indi_axis_motion.py `IndiAxisMover.move` (Axis/Move has the loops)
--   Config      onstep_adapter/indi_config.py      the checks of a configuration
--   Client      onstep_adapter/indi_client.py      the client's moves, its HOME authority and its
--               session's baseline (Client/Session), `connect` (Client/Startup) and `close`
--               (Client/Closing)
--   Serial      onstep_adapter/mount.py            the serial adapter's status and limits, and the
--               proof of a firmware stop (onstep_adapter/firmware_proof.py)
--   Bus         onstep_adapter/serial_bus.py       the serial line with its lock
--   SerialFocuser  onstep_adapter/focuser.py       the focuser on that line
--   Mount       onstep_adapter/mount.py            the class `OnStepMount` on that line: its state, and
--               a call's effects and end (`M`). Its configuration and its faults are those of
--               onstep_adapter/safety.py. Below it:
--               Authority  trust in HOME and the park pose, the safety lock
--               Readiness  clock, site and limits of the controller
--               State      `get_state`, `disable_tracking_verified`, waiting for a status
--               Preflight  `motion_safety_preflight`
--               Target     `_check_target_safe`, the limits of a target
--               Runtime    `current_tracking_safety`, `tracking_guard_tick`
--               Routes     goto, sync, the start of tracking, recovery offsets
--               Parking    unpark, the routes to HOME and PARK
--   Capture     onstep_adapter/capture/stream.py   the records of a captured connection
--   Mock        onstep_mock/mount.py               the virtual mount: its commands, its status text and
--               its motion (Mock/Ticks)
-- Base and Outcome hold the shared helpers: integers over the native numbers, texts as code points,
-- and a Python call's end as a value or an exception. The proofs on a part stand in the modules
-- below it, the runs at concrete inputs in those below Tests.
--
-- How the parts interact: the transport's `World` holds the property store, the clock, and the
-- rest of the world as a schedule, that is what other threads will do and when, how long the next
-- sends will block, and what they will raise. A blocking call takes from the schedule what
-- happens before its deadline. Every routine above it is a function of a world, whose effects on
-- the wire, the clock and the store are in the world that it returns. The reader turns a world
-- into a snapshot, the classification a snapshot and a policy into a phase, and the supervisor
-- and the routines act on both.
--
-- The client's moves are a store of handles, of which one is the client's own: threads that keep
-- an older handle act on it by its index.
--
-- On the serial side the controller is a script: the answers that it will give, and the errors that
-- the line will raise, in the order of the calls. The mount's routines run in the monad `M` of
-- Mount, whose state holds the object's fields, the line, the clock and the log of what was sent; a
-- call ends in a value or in a `Fault`, and keeps what it did before it failed.
--
-- Units: angles in millionths of a degree, hours of right ascension in the angle that they are,
-- times in milliseconds, durations of the policy in 1/3,600,000,000,000 s, in which the sidereal
-- rate is a whole number. All arithmetic is exact: the rounding of floats is not modelled.
--
-- Fuel: a loop that is bounded by a deadline recurs on fuel. A confirmation gets two more rounds
-- than there are events to come, and each round but the first takes one at least; a loop that
-- sleeps gets the rounds of its timeout and a few more. The polls of the serial mount sleep for
-- 50 ms at least or for the pause they are given, so its rounds are counted from the timeout. The
-- result `out_of_fuel` stands for too little of it.
--
-- Parameters: Python's `float` on a text and its format of a number, the local sidereal time, the
-- altitude at an hour angle and a declination, the callbacks of the routines; for the serial
-- mount a record `Sky` of the astronomy, the parsers and formats of its texts and the horizon
-- profile; for the serial focuser the parser and the format of a number and the stored
-- calibration.
--
-- Not modelled: sockets, the XML parser, traces, the texts of errors, lists of warnings of guide
-- pulses, the start and the join of threads; of the serial mount the jogs of an axis,
-- `controlled_meridian_flip`, `connect`, the synchronisation of clock and site, the reading of
-- the limits, the records of park positions and the file of the last state; the tools, and of the
-- captures what reads them.
pub mod Base
pub mod Outcome
pub mod Gu
pub mod Snapshot
pub mod Policy
pub mod Meridian
pub mod Transport
pub mod Requests
pub mod Stop
pub mod Status
pub mod Watch
pub mod Tracking
pub mod Guiding
pub mod Home
pub mod Motion
pub mod Mock
pub mod Serial
pub mod Supervisor
pub mod Focuser
pub mod Axis
pub mod Bus
pub mod Capture
pub mod SerialFocuser
pub mod Mount
pub mod Config
pub mod Client
pub mod Tests
