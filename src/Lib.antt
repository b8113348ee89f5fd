-- ===== src/Lib.antt =====
-- axhost hosts in-process COM controls in a process of its own: as a surrogate that COM starts for
-- one class, or standalone, with the class objects that its command line names. This library models
-- what the program decides itself; COM, the registry, CLI11 and Qt are parameters.
--
-- How a process runs. main (src/main.cc) parses its command line into a ParsedResult, chooses a
-- log, parses it again, and then registers or unregisters registry entries and returns, or makes a
-- runtime and enters the event loop. The runtime registers class objects with COM through
-- HostSurrogate, keeps their cookies, and checks from time to time whether anybody still uses them.
-- A class object makes containers, which put the host's own sinks, connection points and class
-- information before the control's.
--
-- Which file models what, with the functions of src/ that it translates:
-- - Main: src/main.cc (main with both parses) and src/command_line_parser.cc (tryParse, parse).
-- - Startup: src/main.cc (main after the parse) and src/command_line_parser.cc (ParsedResult, the
--   callbacks of options). Startup.Registering: what a registering start leaves behind.
-- - Options: src/command_line_parser.cc (the options that the constructor adds).
-- - OptionValues: src/as_classid.cc and src/as_duration.cc. Help: src/command_line_formatter.h.
--   HelpDialog: src/help_dialog.cc, and the texts of error codes of src/utils.cc.
-- - CommandLine: src/command_line.cc (CreateCommandLine and its quoting). CommandLine.Argv is an
--   independent description of how Windows splits a command line; CommandLine.Emitted and
--   CommandLine.RoundTrip compare the two.
-- - ClassSpec: src/class_spec.cc (fromString, operator<<, sanitize).
-- - Registry: the registry, with laws; Registry.Table is an instance.
-- - RegistryHelper: src/registry_helper.cc (RegisterSurrogate, UnregisterSurrogate,
--   WriteLoggingSettings, ReadLoggingSettings).
-- - Logging: src/logging.cc (the log's file and level). Logging.Registered joins it to Startup.
-- - Failure: src/logging.cc (the callbacks for failures, exceptions and Qt's messages).
-- - Com: class objects and the references of the process, with laws; Com.Table is an instance.
-- - Surrogate: src/surrogate.cc (LoadDllServerEx, LoadDllServer, RegisterAllClassFactories,
--   RevokeAllClassFactories). Surrogate.Cookies, Surrogate.Revoking, Surrogate.Failures and
--   Surrogate.Successes are about the cookies and the results.
-- - Runtime: src/surrogate_runtime.cc and src/utils.cc (the two runtimes, the exit timer,
--   references). Runtime.Watched starts from what the constructors make, Runtime.Standalone has
--   what the standalone one registers. Instance: the one runtime of a process, and the exit that
--   is queued. ReadyEvent: src/ready_event.cc.
-- - Container: src/container.cc and src/container_factory.cc (HostContainer's references, parts and
--   QueryInterface; CreateInstance and LockServer of HostContainerFactory). Container.Methods: the
--   methods of HostContainer that its parts answer. Marshaling: the IMarshal of
--   src/container_factory.cc.
-- - Serving: a standalone host as a whole, Runtime with the containers that Container makes for any
--   number of clients. Serving.Views has the abstract host, Serving.Refinement relates the two,
--   Serving.Exit and Serving.Starting are about the end of the process, Serving.Ending about the
--   class objects that it leaves registered, Serving.Methods about the calls of clients.
-- - Connections: src/connection_point.cc and src/enum_connections.cc. Connections.Refinement
--   relates a connection point to a map from cookies to sinks.
-- - Points: src/connection_point_container.cc and src/enum_connection_points.cc.
-- - Sink: src/sink.cc (the entry in the global interface table, Invoke and its wait). Sink.Thread:
--   what it makes on first use. Sink.Pool: calls in one another and the threads of the pool, with
--   Sink.Nesting and Sink.Deadlock about how deep they may go. ComContext:
--   src/com_initialize_context.cc.
-- - TypeInfo: src/provide_class_info.cc (versions of type libraries, class information).
-- - Unknown: src/unknown_impl.h and src/external_connection.cc (reference counts and connections).
--   Unknown.Counted: the same of src/provide_class_info.cc and src/container_factory.cc.
-- - Memory: who points to whom among connection points, their containers, enumerators and sinks,
--   and when the last reference deletes them: the members and the methods of
--   src/connection_point.cc, src/connection_point_container.cc, src/enum_connections.cc and
--   src/enum_connection_points.cc with the AddRef and Release of src/unknown_impl.h. Memory.Methods
--   and Memory.Calls have the code, Memory.Balance the counts, Memory.Dropped, Memory.Owned and
--   Memory.Freed the references that are given up, Memory.Kinds the classes, and Memory.Cycle a
--   container with its proxy. Memory.Handed, Memory.Entered, Memory.Proxies, Memory.Enumerators and
--   Memory.Sinks follow the methods, Memory.Served one call of a client, and Memory.Histories calls
--   one behind the other.
-- - Common: the shared names, numbers, texts, HRESULTs, flags and maps. Tests: tests and instances.
--
-- How state and calls are modelled. A member function that changes state takes the state and the
-- world of its library, and returns them with its HRESULT and results; the order of the calls is
-- that of the source. An HRESULT is its 32-bit pattern, and a failure has the highest bit set. An
-- interface pointer is a number, and 0 is null; a `wanted` argument says whether the address of a
-- result is null. A std::unordered_map is an association list; std::set and QSet are lists without
-- repetition. The steps of a runtime are the events of a list: a client takes or gives back a
-- reference, or the exit timer runs out. The steps of a whole host are a relation, Serving.Step: a
-- client calls CreateInstance or LockServer, or AddRef, Release or QueryInterface of a container
-- that was not deleted, or the timer runs out. Sink.Pool has a relation of steps too. In Memory the
-- objects stand in a list under their addresses, every AddRef and Release is a command on it, and a
-- use of a deleted object is a fault.
--
-- Bounds and fuel. Two loops of TypeInfo run over the indices of a library until it fails, and take
-- fuel: one round more than the key has subkeys, and one more than the type information implements
-- types, since an index past the last one fails. Their indices wrap around at 2^32, as a DWORD and
-- a UINT do. A release in Memory, with the destructors that it starts, takes more fuel than there
-- are references, and each round gives one up. Every other loop of the source runs over a list that
-- is given. The wait of a sink runs over any finite list of returns of the wait. USHORT versions
-- are cut modulo 65536; the count of a container, which is a ULONG, wraps around at 2^32, and so do
-- those of Unknown.
--
-- What is not modelled. Exceptions of C++ and their handlers, beyond those of the start and of the
-- parser. The reference counts of the control's and the client's objects, each of which is a
-- number. What CLI11 makes of the table of options, and the widgets of dialogs and their layout.
-- The texts of messages, which are values of Notice and Dialog. In Sink, the thread of a call runs
-- while its caller waits; in Sink.Pool, calls are interleaved in any order, and
-- a call that does not reach the client's sink returns in its thread without setting the event, but
-- events are raised on one thread of the control, and the waits do not fail. Of QApplication, main
-- has the arguments that it leaves, and of CLI11 a state that a parse hands to the next.
pub mod Common
pub mod CommandLine
pub mod Registry
pub mod RegistryHelper
pub mod ClassSpec
pub mod Com
pub mod Surrogate
pub mod Runtime
pub mod Tests
pub mod Connections
pub mod Points
pub mod TypeInfo
pub mod Startup
pub mod Logging
pub mod Unknown
pub mod Serving
pub mod Sink
pub mod Main
pub mod Instance
pub mod Help
pub mod HelpDialog
pub mod Failure
pub mod OptionValues
pub mod ComContext
pub mod ReadyEvent
pub mod Marshaling
pub mod Container
pub mod Options
pub mod Memory
