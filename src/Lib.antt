-- ===== src/Lib.antt =====
-- Verification of the control side, the ground-station gateway and the PWM stack of the ROV software.
--
-- The program. A ground station talks to the vehicle's gateway over UDP. Each datagram is one
-- packet: a packed 48-byte header and a payload, each with a CRC-32C. The gateway parses it, runs a
-- session (handshake, commands, acknowledgements, status) and hands each command to a callback. The
-- callbacks publish an intent, as other sources do, and an arbiter chooses one of them. The control
-- program reads the intent and a navigation view at every tick and gives both to the control guard,
-- which latches the emergency stop, arms and disarms, drops stale input, runs motor tests, gates the
-- mode on navigation, limits the commands and chooses a failsafe action. The thrusters are driven by
-- a client of the PWM stack: a safety layer keeps each motor's duty cycle in its range, limits how
-- fast it moves and maps motors to channels, and a host library sends the eight values in a frame
-- with a CRC-16 to an STM32 over UDP, with heartbeats that the STM32 acknowledges.
--
-- The files.
--   Prelude, Prelude/Tests, Prelude/Lists, Prelude/Int: library names passed on, Boolean tests, lists
--     and integers over the native numbers, and the machine-width wrap-arounds.
--   Bits: exclusive or on the native numbers, for both checksums.
--   Control/Mode, Control/Intent: pwm_control_program/include/control_core/control_mode.hpp,
--     control_intent.hpp and control_types.hpp, with the fields and the defaults of the structs.
--   Control/Nav: the fields that the guard reads of shared::msg::NavStateView and the values of its
--     enums, which come from a submodule that the repository does not hold, as records of parameters.
--   Control/Float: the arithmetic on double that the guard uses, as a record of operations, with
--     laws that admit NaN: only a comparison of two ordered numbers is relied on.
--   Control/Guard: pwm_control_program/src/control_core/control_guard.cpp. Checks has the members of
--     ControlGuard and the predicates before step; Stages has sections 1 to 5 of step, Gating
--     sections 5.5 and 6, Step sections 7 and 8 and step itself. Section 9 writes to the console only.
--     A `Work` is the guard, the effective intent, mode_changed and the events so far; each section
--     is a function on it. Keeps, Settle, Payload and TestKeeps say what the sections leave alone;
--     Output, Estop, Failsafe, Mode and MotorTest state the results.
--   Control/Input: pwm_control_program/src/io/input/multi_input_provider.cpp, the merging of the local
--     input's intent and the ground station's; Stop follows a stop into the guard.
--   Control/Manager: pwm_control_program/src/controllers/controller_manager.cpp, the mode and the
--     active controller. The map of controllers is a list of names and objects, the pointer to the
--     active one is its name. Ops has initialisation, registration, commands and compute; Run has
--     histories of calls; Consistent and Keeps are the invariant.
--   Gateway/Bytes: little-endian fields.
--   Gateway/Crc32c: proto_gcs/src/crc32c.cpp, and the serial checksum it is compared with.
--   Gateway/Protocol: proto_gcs/include/proto_gcs/gcs_protocol.hpp.
--   Gateway/Codec: gateway/include/gateway/codec/gcs_codec.hpp and packet_view.hpp; a packet is a list
--     of bytes, and a struct that the code copies with memcpy is the list of its fields' bytes.
--   Gateway/Session: gateway/src/session/gcs_session.cpp. Types has the state and the small helpers,
--     Handle the `switch` of handle_parsed_, Receive on_packet and tick_status. A `Session` is
--     GcsSessionState with tx_seq_ and next_telem_ns_; an `Outcome` is the session, the packets to
--     send and the callbacks called, in order. Clock readings, random numbers and the optional
--     on_dvl_policy are arguments. Commands, Order, Handshake, Timeout, Telemetry and Answers state
--     the results.
--   Gateway/Arbiter: gateway/src/IPC/intent/intent_arbiter.cpp, which chooses the intent to publish.
--     Types has the samples, the policies and set_sources; Decide the passes of decide, each a loop
--     for the first source whose candidate passes a test. shared::msg::ControlIntent is a record of
--     the fields that the arbiter touches and a rest. Sorted, Pick, Winner, Eligible and Degrade state
--     the results.
--   Pwm/Crc16: orangepi_send/src/crc16_ccitt.cpp and the bitwise loops of the C files.
--   Pwm/Bytes, Pwm/Frame: orangepi_send/src/PwmFrameBuilder.cpp, big-endian fields, building and
--     parsing of frames. Pwm/Pack: orangepi_send/src/protocol_pack.c.
--   Pwm/Float: the arithmetic on float and double that the stack uses, as a record of operations, with
--     the laws that the theorems rely on. They hold of IEEE numbers, NaN included: an order on ordered
--     numbers, sums of finite numbers are ordered, and the few literals are in their order.
--   Pwm/Host: orangepi_send/src/libpwm_host.c; its static variables are the record PwmHost. Life has
--     init and close, Send the sending operations, Poll receiving, Ramp the blocking ramp. What the
--     socket and the clock return is an argument, and an operation returns the datagrams that it gives
--     to the socket. Spec is the abstract view: a numbered sequence of messages.
--   Pwm/Safety: orangepi_send/src/pwm_control.c; its static variables are the record PwmCtrl. Config
--     has the sanitizing of the configuration, Targets the targets and the 4-DOF mixing, Step init and
--     step, Blocking the two blocking operations. The layer works over a Transport, the two operations
--     of the host library that it calls; Wire fills it with Pwm/Host.
--   Pwm/Client: pwm_control_program/src/platform/pwm_client.cpp over both, with its dummy backend.
--     Setup has init and shutdown, Ops the other operations.
--   Pwm/Sample: fixed-point numbers, an instance of that interface and its laws.
--   Gateway/NavView: gateway/src/IPC/nav/nav_view_builder.cpp and nav_view_policy.cpp, the navigation
--     view that the daemon of gateway/apps/nav_viewd.cpp publishes; Trust puts it before the guard.
--   Gateway/Arbiter/Examples, Gateway/Examples, Gateway/Session/Examples, Control/Guard/Examples,
--     Pwm/Examples, Pwm/Client/Examples: concrete runs.
--
-- Bounds. Numbers are natural numbers; where the code's integer wraps, the model takes the remainder
-- by 2^16, 2^32 or 2^64. Loops are structural, on the bytes of a packet, the channels, the table
-- entries, the steps of a blocking operation or the datagrams that the socket holds, so no fuel is
-- used. The send buffer holds the largest frame, 30 bytes; the receive buffer has 256 bytes, and a
-- datagram is a list of at most that length where a theorem needs it. Histories of the guard, of a
-- session and of the PWM stack are lists of inputs of any length.
--
-- Not modelled: sockets, shared memory, threads, sleeping, printing, logging and configuration files,
-- which are input and output; the controllers' laws and the thruster allocation, whose floating-point
-- numerics need a model of rounding; the programs that sample the sources of intents; the version-0
-- frames, which are behind a macro that is not defined.
pub mod Prelude
pub mod Bits
pub mod Control
pub mod Gateway
pub mod Pwm
