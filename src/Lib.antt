-- ===== src/Lib.antt =====
-- The control software of an autonomous vehicle on ROS 2: the parts of its Python packages that
-- hold no ROS client and decide what the vehicle does.
--
-- Its parts, from the hardware upwards:
-- - salus_control/rpy_esp32_comms talks to the drive controller over a serial line. Commands
--   leave as seven-byte frames; telemetry and battery frames of eight bytes come back in chunks
--   of any size.
-- - salus_hardware relays RTCM corrections: ntrip_protocol.py finds the frames in the stream of a
--   caster, rtk_domain.py validates each and decides whether it may be delivered to the
--   autopilot. It reads the state of the battery pack too, from the frames of
--   pylontech_protocol.py, and turns what the drive measures into inputs of the kinematics.
-- - salus_localization lets the samples of one satellite receiver and of one IMU through, in the
--   order of their times.
-- - salus_control also takes the canonical vehicle commands: each is validated, and a watchdog
--   replaces one that grows old by an emergency stop. It turns the velocities of the navigation
--   into drive commands, translates the legacy commands, and watches the voltage of the battery
--   to end a mission in time.
-- - salus_web reads and checks the requests of the operators, and gives one of them exclusive
--   control: every request that moves the vehicle passes the lease, which passes it to the guard,
--   which locks when heartbeats stop.
-- - salus_navigation brings the navigation up, cuts a route into the goals that are sent one
--   after another, runs it with the actions of its waypoints, waits for another plan or recovers
--   when the route is blocked, and returns home when the battery asks for it.
--
-- Files, and the code they model:
-- - Esp32: src/salus_control/salus_control/rpy_esp32_comms. Crc (crc8_maxim), Telemetry
--   (telemetry.py), Decode (decode_esp_frame, decode_battery_frame, decode_transport_frame),
--   Parser (EspFrameParser, decode_stream_chunks), Command (CommandState of controller.py,
--   encode_pi_frame). Proofs: Parser/Refinement, Parser/Progress, Parser/Chunks, Command/Frame.
-- - Rtcm: src/salus_hardware/salus_hardware. Crc, Frame, Delivery, Status and Legacy
--   (rtk_domain.py), Response, Chunks and Decoder (parse_response, ChunkDecoder and RtcmDecoder
--   of ntrip_protocol.py). Proofs: Delivery/Order, Decoder/Frames, Decoder/Incremental,
--   Chunks/RoundTrip.
-- - Pylontech: src/salus_hardware/salus_hardware. Pylontech (pylontech_protocol.py and
--   battery_domain.py), Hex (what int(text, 16), bytes.fromhex and the formats do to bytes).
--   Proofs: Layout, Sound, Checksum.
-- - Kinematics: src/salus_hardware/salus_hardware. Measurement
--   (legacy_drive_measurement_domain.py), Conversion (kinematic_conversion_domain.py, and _input
--   of kinematic_conversion_node.py). Proof: Provenance.
-- - Localization: src/salus_localization/salus_localization. Gnss (gnss_selection_policy.py), Imu
--   (imu_selection_policy.py), Samples (what both share). Proofs: in Gnss, Imu/Order.
-- - Operator: src/salus_web/salus_web. Request (is_controlled_operation of protocol.py), Protocol
--   (parse_request and ack), Protocol/Validate (validate_request), Guard (operator_guard.py),
--   Lease (operator_lease.py). Proofs: Protocol/Errors, Protocol/Valid, Guard/Facts, Lease/Facts,
--   Lease/Calls, Lease/Exclusive.
-- - Control: src/salus_control/salus_control. Canonical (canonical_command_consumer.py), Desired
--   (desired_command_from_canonical, DesiredCommand of control_logic.py), Logic (the rest of
--   control_logic.py), Battery (battery_estimator.py), Legacy (legacy_vehicle_command.py),
--   Comparison (vehicle_command_comparison.py). Proofs: Canonical/Safety, Logic/Direction,
--   Battery/Guard, Legacy/Stops.
-- - Navigation: src/salus_navigation/salus_navigation. Startup (startup_readiness.py), Recovery
--   (route_recovery.py), Reanchor (the rest of it), Maneuver (the wait of maneuver_guard.py),
--   Planner (planner_failure.py), Preparation and Preparation/Yaws (route_preparation.py),
--   Actions (route_actions.py), Model (route_model.py), Chunker, Chunker/Modes and Dispatch
--   (route_chunker.py), Mission (the mission, validate_mission, select_return_exit and
--   route_roles_for_phase of patrol_domain.py), Patrol (PatrolMachine), BatteryInput
--   (patrol_battery_input.py), Tracker (route_checkpoint_tracker.py). Proofs: Startup/Once,
--   Recovery/Budget, Maneuver/Wait, Maneuver/Escalation, Planner/Evidence,
--   Preparation/Checkpoints, Preparation/Headings, Preparation/Prepared, BatteryInput/Precedence,
--   BatteryInput/Latch, Reanchor/Pending, Reanchor/Ahead, Actions/Validity, Actions/Sequence,
--   Chunker/Windows, Chunker/Distance, Chunker/Dense, Chunker/Single, Chunker/Outcome,
--   Dispatch/Forward, Dispatch/Horizon, Mission/Exit, Mission/Roles, Patrol/Return,
--   Patrol/Battery, Patrol/Route, Tracker/Ordered.
-- - Prelude, Float, Json, Stream: shared numbers, texts, lists and results; the parameters below;
--   and the scan that the stream parsers are compared with. Tests: concrete runs.
--
-- What stands for code outside the repository is a parameter: Python's float arithmetic is the
-- record Float, with no law assumed but those that a theorem names; a clock is the sequence of
-- its readings, and a state counts the readings made; the JSON module is the record PyJson. The
-- decoding of UTF-8, int(raw, 16) and str.lower are arguments of what uses them.
--
-- Bytes are natural numbers, and a CRC keeps its shifts and masks written out. The parsers' loops
-- run on fuel, one more than the bytes in the buffer, which is enough: each round that goes on
-- drops a byte. The loops that build a chunk have as many steps as the route has points: an index
-- grows to the end of an open route, or comes back to the start of a circuit. Indices into a
-- route are not negative.
--
-- A state that Python mutates is a record that an operation takes and returns; what raises
-- returns a Result or an outcome of its own. The texts of errors are constructors.
--
-- An integer that no float holds, for which float() raises OverflowError, is left out. What
-- round() raises for a number that is not finite is modelled, but for the steering of
-- control_logic.py, whose limits are taken to be finite.
--
-- Not modelled: the inspection of maneuvers and the geometry of paths, the ROS nodes and their
-- callbacks, serial and network I/O, files, threads, the filters and estimators over
-- floating-point arrays, launch files, the C++ plugins, the tools. The lock that serialises the
-- calls of a lease is taken for granted: calls are a sequence.
pub mod Prelude
pub mod Float
pub mod Stream
pub mod Esp32
pub mod Rtcm
pub mod Pylontech
pub mod Json
pub mod Operator
pub mod Control
pub mod Kinematics
pub mod Localization
pub mod Navigation
pub mod Tests
