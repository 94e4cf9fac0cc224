-- ===== src/Lib.antt =====
-- Verification of pitblu-core, a service that reads a Weber iGrill thermometer over Bluetooth and
-- publishes what it reads.
--
-- How the program works, and which file models which part (paths from the repository's root):
--
-- * src/pitblu_core/protocol.py decodes the bytes of the thermometer's characteristics, and
--   src/pitblu_core/models.py checks the snapshots that adapters build of them: Protocol, Models. A
--   temperature is a whole number of thousandths of a degree; a `datetime` is its instant in
--   microseconds and whether it has a zone.
-- * src/pitblu_core/connection.py holds the state machine of a connection and the backoff between
--   attempts: Connection. The random number of a delay is an argument, in millionths.
-- * src/pitblu_core/telemetry.py keeps the current snapshot and the heartbeat of each device, ends
--   them by timers, and numbers the events: Telemetry (state and numbering), Telemetry/Heartbeats,
--   Telemetry/Snapshots, Telemetry/Lifecycle, and Telemetry/Views for what the interface shows. A
--   method is a function on the state with the clock's readings as arguments; a timer's sleep ends in
--   a step of its own, at any time, so each result holds for every order of methods and timers. The
--   fields that hold tasks hold what the task waits for. `ref` numbers the identity of a snapshot.
-- * src/pitblu_core/events.py fans events out and retains the last of each kind: Events. The
--   telemetry's calls of the bus are a list in its state, and `bus` in Telemetry applies them.
-- * src/pitblu_core/storage.py is the administrative store: Storage, Storage/DeviceTable and
--   Storage/OperationTable. The tables are lists of rows; SQLite itself is not modelled, and a method
--   is one transaction. Rows of equal time stay in the table's order.
-- * src/pitblu_core/security.py limits the rate of requests and the size of their bodies: Security.
--   The limiter's float tokens are exact numbers of parts.
-- * src/pitblu_core/adapters/igrill_v202.py reads the physical thermometer: Igrill, with
--   Igrill/Discovery, Igrill/Session for the connection and Igrill/Rounds for a round of reads. The
--   answers of the BLE library, the clock and the random identifiers are arguments.
-- * src/pitblu_core/adapters/simulated.py makes readings up, for a run without a thermometer: Simulated,
--   with Simulated/Controls for what a test sets on it.
-- * src/pitblu_core/service.py registers devices and runs the operations that connect and disconnect
--   them: Service (state, tasks, recoveries), Service/Operations, Service/Registration,
--   Service/Attempts and Service/Connecting for the task of a connection, Service/Polling for one
--   round of the polling task, Service/Lifecycle for the start, the close and the loops of discovery
--   and recovery, and Service/Views for what is shown. A coroutine runs whole, with what it awaits as
--   arguments; what other tasks do while a recovery sleeps is a function of the service, and other
--   interleavings at awaits are not modelled. The operations' dictionaries are shared objects, named
--   by their identifiers.
-- * src/pitblu_core/configuration.py layers the settings and updates them by versions: Configuration. A
--   setting is its JSON text, and the checks that pydantic makes of the declared fields are a
--   parameter. The validated settings are those of the manager, so `_config` is no field of its own.
-- * src/pitblu_core/mqtt.py publishes the bus's events to a broker: Mqtt (topics and payloads),
--   Mqtt/Publisher (its state and messages), Mqtt/Session and Mqtt/Loop. A payload is the dictionary
--   that is dumped as JSON. What the awaits of a session come to is a list of turns, and the network is a test of each
--   message's number. The client of the library, and the broker, are the network.
-- * src/pitblu_core/auth.py issues and verifies the administrator's token: Auth. The hash is a
--   parameter.
-- * src/pitblu_core/deployment.py starts a managed service and issues its first token: Deployment.
-- * src/pitblu_core/api.py is the interface: Api (authentication, the limits, the answers to errors),
--   Api/Routes (the calls and their answers) and Api/Dispatch (what each call does on the application,
--   which holds the store, the service and the configuration's manager). A call is given the times,
--   identifiers and random bytes that it meets, and whether FastAPI accepts its parameters.
--
-- The modules below these prove properties of them and are named for what they prove. Prelude holds
-- what they share: dictionaries as association lists, equality and order tests, exceptions as values
-- and the monad `Exec` of methods that change an object and may raise. Tests holds concrete runs.
--
-- No definition runs on fuel: the loops are structural recursion on the lists that the source walks,
-- or, for what the outside decides (messages, calls, timers), on a list of them.
--
-- Not modelled: the JSON of the answers, the server's start, the command-line tools, the installer, the
-- network advertisement, the BLE library and BlueZ, SQLite, the names that the environment's variables
-- are mapped from, and the text of logs.
pub mod Prelude
pub mod Protocol
pub mod Models
pub mod Simulated
pub mod Connection
pub mod Events
pub mod Telemetry
pub mod Security
pub mod Storage
pub mod Igrill
pub mod Service
pub mod Mqtt
pub mod Configuration
pub mod Auth
pub mod Deployment
pub mod Api
pub mod Tests
