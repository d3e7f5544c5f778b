-- ===== src/Lib.antt =====
-- Verification of the application in app/ of the RK3588 toolkit: a service for a payload board
-- that takes commands from files and from a CAN bus, drives cameras, supervises its worker
-- processes and keeps the board's watchdog from firing.
--
-- The parts and how they interact. MainService (app/src/main_service.cpp) runs a loop that ticks
-- the parts below. WorkerSupervisor forks the workers and restarts those that die. The CAN worker,
-- one of them, puts a line into the command inbox for each command frame that it receives.
-- TelemetryCommandInterface takes one line from the inbox in each tick, looks its command up in the
-- definitions, and hands it to CommandDispatcher, which passes it to one of eight services or to
-- TaskManager; that one starts a task of the camera manager. CameraManager, in the camera worker,
-- gives the task to the controller of the camera that it names; each CameraController keeps the
-- connection to one camera and runs one task. WatchdogService kicks the hardware
-- watchdog and systemd as long as the proxies of the CAN and the telemetry worker report that these
-- are alive. A camera task crosses to the camera worker as a message that CameraWorkerProxy sends,
-- and the camera's state comes back as snapshots; to the task manager this proxy is the camera
-- manager. The Ethernet gateway is a program of its own, which decodes what it hears and logs it.
--
-- Which file models which part:
--   Supervisor    app/src/worker_supervisor.cpp
--   Watchdog      app/src/watchdog_service.cpp
--   Telemetry     app/src/telemetry_command_interface.cpp; Telemetry.Parse has its text functions
--   Command       app/include/command_types.h and the names in app/src/command_dispatcher.cpp
--   Dispatcher    app/src/command_dispatcher.cpp
--   Service       app/src/log_service.cpp and seven services of the same code
--   TaskManager   app/src/task_manager.cpp, over the interface of app/include/camera_interface.h
--   Camera        the data of app/include/camera_controller.h and app/include/camera_app.h
--   UserDataStore the paths of app/src/user_data_store.cpp
--   Can           app/src/can_protocol.cpp
--   CanWorker     app/src/can_worker.cpp: the steps of the event loop; CanWorker.Loop has the loop,
--                 CanWorker.Proxy the proxy in the parent process; a frame that is written is in the
--                 lists of sent frames with the descriptor that it is written to
--   Uplink        both ends of the command inbox together: CanWorker and Telemetry, whose reads and
--                 ticks come in any order but do not overlap
--   CameraController  app/src/camera_controller.cpp and the writing of files in
--                 app/src/user_data_store.cpp: one camera with its connection and its task
--   CameraManager app/src/camera_manager.cpp: the sessions, each with its controller
--   CameraPortResolver  app/src/camera_port_resolver.cpp
--   CameraWorker  app/src/camera_worker.cpp: CameraWorker.Fields and Snapshots have the messages,
--                 Loop the loop of the worker, Proxy the service's side of its channel;
--                 Requests and Answers compare the two with the camera manager that they stand for
--   WorkerChannel app/src/worker_channel.cpp
--   TelemetryWorker  app/src/telemetry_worker.cpp: the worker, and in TelemetryWorker.Proxy the
--                 service's side of its channel
--   TelemetryManager  app/src/telemetry_manager.cpp
--   MainService   app/src/main_service.cpp: the start, one round of the loop, and the end
--   CommandLine   app/main.cpp
--   Gateway       gateway/youyeetoo_eth_gateway.c: the options, the loop of the monitor and, in
--                 Gateway.Packets, the decoding of frames, in which every byte is read from the
--                 frame at its index
-- Prelude, Number, FileSystem and Result hold what these share: Boolean tests and lists over the
-- native numbers, texts as lists of bytes, the conversions and splittings of the C++ library that
-- the source calls, files as values, and results with an error text. The modules below a part hold
-- its lemmas and are named for what they are about; runs at concrete inputs are in the modules
-- named Tests.
--
-- The state of a class is a record with its fields, and a method is a function of the same name, in
-- lower case, from the state to the new state and the result. What the operating system does
-- (socketpair, fork, waitpid, poll, read, write, the watchdog device, the clock) is an argument of
-- the function that meets it, so that the theorems hold for every outcome. Time is in milliseconds.
-- A Boolean result with an error text is a Result; a map is an association list. The camera manager
-- that TaskManager uses is a parameter, the record ICameraManager, which the proxy of the camera worker
-- fills. Floating-point numbers are the record Doubles. The camera behind the SDK adapter,
-- with the clocks and the directories, is the record Platform; the camera controller and what it works
-- on are a Session.
--
-- Bounds and fuel. A 32-bit value that the code cuts off is written with % 2 ^ 32, and the CAN
-- identifier with % 2 ^ 29. Counters are natural numbers: the wrap-around of the counters of restarts,
-- feeds, frames and rounds is not modelled. The loops of the program that do not end (the event loop, the
-- main loop) are runs over a list of rounds or ticks, of any length. Two functions are on fuel: `decimal`
-- in Number, whose fuel n + 1 is more than the digits of n, and `begin_photo` in
-- CameraController.Photo, whose fuel is one more than the photos that are left.
--
-- Not modelled: log lines but for the summary of the main service and the reports of the gateway; the
-- code that runs in a forked child before its worker's loop; the camera SDK and its adapter
-- (app/src/camera_sdk_adapter.cpp), which call a library that is not in the repository, with what the
-- adapter does around these calls (it reads the texts of parameters, and downloads over HTTP where the
-- SDK fails): both are the parameter Platform; the log file
-- and the signals of the gateway; the simulators in tools/ and the scripts.
pub mod Prelude
pub mod Supervisor
pub mod Camera
pub mod Command
pub mod Service
pub mod TaskManager
pub mod Dispatcher
pub mod Result
pub mod Number
pub mod FileSystem
pub mod UserDataStore
pub mod Telemetry
pub mod Watchdog
pub mod Can
pub mod CanWorker
pub mod Uplink
pub mod CameraWorker
pub mod WorkerChannel
pub mod TelemetryManager
pub mod TelemetryWorker
pub mod MainService
pub mod Gateway
pub mod CommandLine
pub mod CameraController
pub mod CameraPortResolver
pub mod CameraManager
