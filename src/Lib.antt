-- ===== src/Lib.antt =====
-- The daemon gemian-leds, which drives the LEDs of the Gemini PDA: a D-Bus service takes requests, puts
-- them as actions into the queue of the main loop, and the main loop writes the state of the lights
-- into the AW9120 controller, together with a program of it that animates the LEDs. A watcher of
-- connman reports the radios to the same lights.
--
-- The parts, and the files that model them:
--
-- LightState (src/core/LightState.h, src/core/LightState.cpp)
--   LightState.Steps: the enums, a step of the block, AWLEDCodeForStep.
--   LightState.State: the fields; a World is the object with the lines that it has written to the three
--   device files, oldest first. A method is a function from World to World.
--   LightState.Device: the register writes. LightState.Text: their text in the device files.
--   LightState.Update: Update. LightState.Handlers: the constructor and the handlers.
--   LightState.Program: what Update is to show. Channel, Spec: the instructions and the program for a
--   state, said without the writes; Items, Runs, Shown: Update writes this program; Codec: its words
--   read back; Loop, Wiring: the loop and the channels; Observe, Registers, Status, Loaded: what the
--   writes leave in the SRAM, the registers and the LEDs. Room: the length of the program.
--   LightState.Race: two runs of Update from two threads, a call of the device's methods a step. Calls,
--   Overlap, Mixed: the calls against Update, and what they leave where they overlap.
-- LEDs (src/core/LEDs.h, src/core/LEDs.cpp)
--   Leds.Request, Leds.Service, Leds.Method: the parameters and replies, the handler slots, and the
--   method call. What g_variant_get reads is the record Variants. Leds.Requests: what a request does.
--   Leds.Ended: the service once its registrations have ended. Leds.Interface: the introspection data.
-- Daemon (src/core/Daemon.h, src/core/Daemon.cpp)
--   Daemon.Queue, Daemon.Handlers: the queue, the main loop and the handlers that it registers.
--   Daemon.Order, Daemon.Lights: the order of the actions, and what they do to the lights.
--   Daemon.Lock: the mutex and the changes of the queue under it, in steps of the threads, with a signal
--   handler on top of a call. Exclusion, Found, Serial: the calls against the same calls one after the
--   other. Deadlock: a signal within a call.
-- ConnectionWatcher (src/core/ConnectionWatcher.h, src/core/ConnectionWatcher.cpp)
--   ConnectionWatcher.Watcher, Radios, Reports: the signals and queries, and what they do to the lights.
--   ConnectionWatcher.Subscriptions, Watching: the subscriptions in the life of the watcher.
-- EventLoop (src/core/EventLoop.h, src/core/EventLoop.cpp, src/core/EventLoopHandlerRegistration.h)
--   EventLoop.Loop, Steps: the loop with its sources and promises, and what its thread and its clients
--   do; GLib chooses the source that is dispatched. Promises, Accounts, Life, Stop, Late: every promise is
--   accounted for, and stop. Drain, Waits: the dispatches in the order of the sources. Cancellation,
--   Cancelled: schedule_with_cancellation_in, which nothing calls, with the references of its source.
--   Name: the name of its thread.
-- Dbus (src/core/DBusConnectionHandle.cpp, src/core/DBusEventLoop.cpp, src/core/DBusMessageHandle.cpp,
-- src/core/ScopedGError.h)
--   Dbus.Calls: what GDBus does, as parameters with what is documented of it. Connection, Registrations:
--   the calls of the daemon. Start: start_processing of src/core/LEDs.cpp. Life: the connection
--   from the constructor of LEDs to its end, or to the exception that ends the program. Messages, Unref:
--   the handles of messages, which only the tests use, and what becomes of the messages.
-- Registration (src/core/HandlerRegistration.h, src/core/HandlerRegistration.cpp)
--   Registration.Handle: the objects in a store. Cells, Once, Moves: what becomes of their functions.
-- Configuration (src/core/DaemonConfig.h, src/core/DaemonConfig.cpp)
--   Configuration.Config: the getters, and the members of the daemon. Extends, Getters, Sharing: which
--   objects are shared.
-- Main (src/main.cpp)
--   Main.Signals, Restore: the signal handler. Process: main with it, step by step, and what comes between
--   the steps. Points, Alive, Ending: what holds at each point, and the end after a signal.
-- Logs (src/core/Log.h, src/core/ConsoleLog.cpp, src/core/NullLog.cpp, src/core/SyslogLog.cpp)
--   Logs.Stamp, Line: what a log writes. Digits, Written: the time of a line, and the lines of a life.
-- System: the first four together, as a step relation, with the timeouts as a list. System.Hosted: the
-- same with the event loop of the service and its sources for that list. System.Panel: what the daemon
-- is to do, with no queue, loop or threads; Settled, Behaves: the daemon as such a panel. Shows:
-- the panel in the controller. Settles, TorchOff: how it comes to rest, and what becomes of a torch.
-- Room: how many steps fit.
-- Teardown (src/core/LEDs.h, src/core/ConnectionWatcher.h)
--   Teardown.Objects: the members in their order, and what the loop of the object calls while they end.
--   Order, Ends: what can be used after its end.
-- Examples: tests of the definitions and uses of the theorems. Base: what the modules share.
--
-- Bounds and fuel: unsigned int and guint are natural numbers with their wrap-around at 2 ^ 32 written
-- out. The program counter wraps only after 2 ^ 32 instructions, which a hypothesis excludes where it
-- matters. The rounds of the main loop take a number of rounds; Daemon.Order takes one for each
-- waiting action.
--
-- Not modelled: the log lines of the other parts; the errors of the file system; the memory and the
-- threads of GLib, but for a cancelled source; a reply of connman that has no body or one of another
-- type; that a callback that is enqueued with a wait comes to run. Outside of LightState.Race each call of the lights is
-- taken as whole, although the watcher and the main loop call them from two threads with no lock. The
-- loop of the watcher appears in System as the signals that it handles, and the requests of the bus
-- appear in Main as the actions that arrive.
pub mod Base
pub mod LightState
pub mod Leds
pub mod Daemon
pub mod ConnectionWatcher
pub mod EventLoop
pub mod Dbus
pub mod Registration
pub mod Configuration
pub mod Logs
pub mod System
pub mod Main
pub mod Teardown
pub mod Examples
