-- ===== src/Lib.antt =====
-- The firmware of an IoT visual management station (firmware/main): an ESP32-S3 that polls a
-- button, a toggle, a rotary encoder and an analog slider, keeps the station's state, sends events
-- to an MQTT broker, buffers them while the broker cannot be reached, and drives a status LED on
-- command.
--
-- How the parts interact: the drivers poll pins and put events into one queue. The application
-- task takes them out in order, updates the state and the output, numbers the events that go
-- upstream, and hands them to MQTT, or to the offline store while MQTT does not take them. The
-- connection's task puts its own notices and the backend's commands into the same queue.
--
-- Which file models which part, with a definition for each function under the function's name:
-- - Event: events/Event.hpp, the event types and the event record.
-- - EventQueue: events/EventQueue.cpp, the wrapper of the FreeRTOS queue. EventQueue/Fifo has what
--   it keeps.
-- - Store: storage/OfflineEventStore.cpp, the bounded buffer with its mutex. Store/Pure reads each
--   operation as a function on the buffer, Store/Coalesce says what a push keeps, and
--   Store/Invariant, Store/Push, Store/Outage and Store/Thins have the theorems and their lemmas.
-- - StateManager: state/StateManager.cpp. StateManager/Latest is an independent reading of a
--   history.
-- - Drivers/Digital, Drivers/Encoder, Drivers/Led: drivers/DigitalInput.cpp,
--   drivers/RotaryEncoder.cpp and drivers/LedDriver.cpp, with one poll in Drivers/Digital/Update,
--   the debounce in Drivers/Digital/Debounce and Drivers/Digital/Promise, and the encoder's circle
--   of states and its count in Drivers/Encoder/Phase and Drivers/Encoder/Count.
-- - Drivers/Analog: drivers/AnalogInput.cpp over an interface for the one-shot ADC driver, with
--   its initialization in Drivers/Analog/Setup and its reports in Drivers/Analog/Report;
--   Drivers/Encoder/Report has those of the encoder.
-- - Input: app/InputManager.cpp, with the polling round in Input/Round and the initialization in
--   Input/Startup.
-- - Output: outputs/OutputManager.cpp. Output/Shown compares the LED with the state.
-- - Config: config/DeviceConfig.hpp, with what a local header may set as an argument.
-- - Application: app/Application.cpp. Application/Offer is one attempt to send, Application/Flush
--   the loop over the buffer, Application/Publish and Application/Process the branches of
--   publishOrBuffer and processEvent, Application/Order, Application/Sequence and Application/Loop
--   the order of what leaves the station, Application/Beats the heartbeats, Application/Lit the
--   LED, Application/Consume what a round does to the state, Application/Upheld and
--   Application/Emptied what it leaves in the buffer while messages are taken, and
--   Application/LastValue, Application/Holds and Application/Converge the last value of each
--   source.
-- - Serializer: network/MessageSerializer.cpp over the interface of cJSON in Cjson, with
--   serializeEvent in Serializer/Outcome and Serializer/Render, and parseCommand in
--   Serializer/Command.
-- - Mqtt: network/MqttManager.cpp over an interface for ESP-MQTT, with the life of the client in
--   Mqtt/Client, arriving messages in Mqtt/Incoming, and the absence of echoes in Mqtt/Quiet.
-- - Wifi: network/WifiManager.cpp over the interface for ESP-IDF's networking in EspWifi, with its
--   initialization and destructor in Wifi/Setup, and the connection over time, as a small machine,
--   in Wifi/Reconnect.
-- - Main: main.cpp, the start-up, with its checks in Main/Checks and the station that it makes,
--   pin by pin, in Main/Wired. From the start of the application task on, the rest of app_main is
--   a step of the running system.
-- - System: the running firmware, as a step relation on the objects of Main, with reachability.
--   System/Emission says what one poll tells, System/Track and System/Carry follow the values
--   through the queue, the buffer and MQTT, System/Notices has what the other steps leave alone,
--   System/Invariant and System/Startup have the invariant, System/Settled the states with nothing
--   left to send, System/CatchUp the rounds that lead there, and System/Silent, System/Pending and
--   System/Command the way of a command to the LED.
-- - Uplink: what the application needs of the serializer and the MQTT manager, as an interface
--   with laws, which Uplink/Station fills from the two.
-- - Rtos: the calls of FreeRTOS queues and mutexes, as interfaces with their documented laws;
--   Rtos/Host, Uplink/Host, Cjson/Host, Mqtt/Host, Wifi/Host and Drivers/Analog/Host are concrete
--   objects that meet the laws, and System/Host puts them together.
-- - Prelude: shared tests, lists, integers, machine words and byte strings.
--
-- State is passed explicitly. A driver's pin levels and clock readings are arguments of the call
-- that reads them, and another task's steps show as a different queue or world at the next call.
-- An operation of the store takes and returns the mutex as the code does, so a mutex that another
-- task holds is a state of the model.
--
-- Numbers: sequence IDs and the coalesced count wrap at 32 bits, times are 64-bit and their
-- difference wraps, and the encoder's count saturates at the limits of int32. The loop of
-- flushOfflineEvents runs on fuel, one more than the buffered events; each round that goes on
-- removes an event, so the loop ends before the fuel does (Application/Flush).
--
-- In System a step is a whole round of a task or a whole event of a library, in any order; the
-- order of single calls inside two steps at once is not modelled, but for what the uplink may meet
-- in the theorems about one application.
--
-- Not modelled: logging, task priorities and delays, which are outside the logic above, the
-- backend, the benchmarks, the tests and the legacy prototypes.
pub mod Prelude
pub mod Event
pub mod Rtos
pub mod EventQueue
pub mod Store
pub mod StateManager
pub mod Drivers
pub mod Output
pub mod Config
pub mod Input
pub mod Cjson
pub mod Serializer
pub mod Mqtt
pub mod Uplink
pub mod Application
pub mod EspWifi
pub mod Wifi
pub mod Main
pub mod System
