-- ===== src/Lib.antt =====
-- golang-iothub: a client library for Azure IoT Hub. Package iotdevice is the device side (over a
-- transport, of which iotdevice/transport/mqtt is the one there is), package iotservice the back
-- end (over AMQP and REST), package common what both share.
--
-- Files, and the code that they are about:
--   Base      shared names: bytes, maps as association lists, `Result` (a value, an error or a panic)
--   Std       what the source uses of packages strings, strconv and net/url
--   Common    common/sas.go (Credentials, Sas), common/message.go (Message) and
--             common/commonamqp/message.go (AmqpMessage)
--   Amqp      connections, sessions and links as eventhub and iotservice open and close them
--   Eventhub  eventhub/client.go: dialling, tokens (PutTokenContinuously in Refresh), partition
--             ids, closing, SubscribePartitions (Partitions), RandString (Random)
--   Service   iotservice/registry.go (Registry) and iotservice/client.go: the key functions (Keys),
--             the options and NewClient (Client), SendEvent and its options (Send), Connect
--             (Connect), Close (Closing), connectToEventHub and SubscribeEvents (EventHub),
--             SubscribeFeedback (Feedback), the REST request (Rest) and the operations on devices,
--             twins and jobs (Devices)
--   Device    iotdevice/mux.go (Once, Mux), iotdevice/creds.go and iotdevice/client.go (Options,
--             Send, Connect, Background, Client), iotdevice/transport/transport.go (Transport: the
--             interface as a record of operations, and its laws), and Connect and SendEvent of a
--             client over any transport of that interface (Session)
--   Mqtt      iotdevice/transport/mqtt/mqtt.go: requests and responses about the twin (Requests),
--             topics and the messages that they carry (Topics), Connect, Close and the handlers
--             of events and method calls (Transport), the subscriptions and what twin requests
--             return (Twins), contextToken (Token), and the whole as a transport of Device/Transport,
--             under a client of Device/Session (Interface)
--   Cli       cmd/internal/cli.go (Cli), cmd/iothub-service/main.go (ServiceTool) and
--             cmd/iothub-device/main.go (DeviceTool; the handlers of direct-method at their
--             terminal in Prompt)
--
-- How the code is read. A Go string is a list of byte values. A map is an association list; a
-- range loop walks it in the order of the list, which the theorems leave open. `(T, error)` is
-- `Result T`, with a constructor for a panic. A nil pointer or map is `none`. Where goroutines
-- share a state the model is a step relation, one step for each access, and a theorem ranges over
-- all the states that it reaches; elsewhere an operation is a function of the state that returns
-- the new one, and stands for what happens under the mutex (Device/Mux/Messages/Overlap has two
-- operations that overlap under a read lock). A channel is a list with its capacity as a guard.
-- `Connect`'s loop runs on fuel; its theorem gives the number of rounds that is enough. The
-- numbers of attempts, channels and goroutines are unbounded; the request numbers of the MQTT
-- transport wrap at 2^32. What AMQP code opens is numbered by the call that opened it, and the
-- state holds the numbers of what is open.
--
-- What the code calls and does not contain is a parameter: hashing and base64 (`Crypto`), JSON and
-- `%q` (`Codec`), a caller's credentials (`Provider`), a transport's answers (`Attempts`, `Link`,
-- the function `send`), the MQTT library and the clocks under a transport (`Environment`), the AMQP
-- peer (`Peer`), the feedback that arrives (`Inbox`). Logging and TLS configuration are left out.
-- For the command line tools the parser of flags (`Parser`), the sort of the subcommands and the
-- environment (`Outside`) are parameters too. `SubscribeFeedback` runs on fuel, one round for each message; its theorem gives the rounds that are enough. The
-- goroutine of `PutTokenContinuously` runs over a list of events.
--
-- Not modelled: the certificates of common/tls.go and the TLS configurations, which are data for
-- package crypto/tls, logging, and the text of usage messages.
pub mod Base
pub mod Std
pub mod Common
pub mod Amqp
pub mod Eventhub
pub mod Service
pub mod Device
pub mod Mqtt
pub mod Cli
