-- ===== src/Lib.antt =====
-- Kenshu Elaris, payment simulator: a service that turns requests for invoices into invoices and
-- payment requests, takes payments by card, and issues payment requests again.
--
-- The parts and how they interact. A message queue delivers requests for invoices to the invoice
-- service (internal/app/invoice_service.go), which decodes a body, makes an invoice document with
-- the time of the clock and a random number, stores it in a repository, publishes a payment request
-- to the guest, and acknowledges the delivery, or refuses it. Guests pay through the payment making
-- service (internal/app/payment_making_service.go): it looks the invoice up, marks it as paid and
-- answers, while a goroutine stores a receipt and publishes a confirmation. The payment reissue
-- service (internal/app/payment_reissue_service.go) builds the payment request of a stored invoice.
--
-- What models what:
--   Base            shared names, Boolean tests, lists by native numbers, integers
--   Go              what the program uses of Go: byte strings (Go/Text), times (Go/Time), and calls
--                   that may fail or panic and that act on the outside (Go/Call)
--   Errors          internal/domain/errors: the types, their texts, errors.As
--   Validation      internal/app/validation: the validator and its steps
--   Dto             internal/domain/dto: the messages and their getters
--   Document        internal/domain/document: NewInvoiceFromProtoMessage, NewReceiptFromProtMessage
--   Db              internal/infra/db: the two repositories, over a collection of the driver
--   Port            internal/port, and the packages that the services call
--   App/Util        internal/app/util/util.go: GenerateHumanFriendlyId
--   App/Mapper      internal/app/payment_request_mapper.go: buildPaymentRequest
--   App/Grpc        the status errors, and mapError of the payment making service
--   App/Unmarshal, App/RequestCheck, App/InvoiceService
--                   internal/app/invoice_service.go: unmarshalRequest, validatePaymentRequest, and
--                   the handling of a delivery
--   App/PaymentMaking   internal/app/payment_making_service.go: PayWithCard, and the goroutine it
--                   starts (post_payment_work)
--   App/PaymentReissue  internal/app/payment_reissue_service.go: Reissue
--   App/Init        the constructors of the services, StartInvoiceProcessing, internal/app/init.go
--   Config          internal/config: the structs and LoadConfigs
--   Mq              internal/infra/mq: Mq/Broker holds what it uses of amqp091-go and its state;
--                   Mq/Connection, Mq/Channel, Mq/Producer and Mq/Consumer a file each;
--                   Mq/Lifecycle the calls of all of them as steps of the shared connection
--   Infra           internal/infra: telemetry, MongoDB, the clock's client and Init (Infra/Init), over
--                   the drivers of Infra/Outside; Infra/System is the state that they share, and
--                   Infra/Ports what they are to the services; Infra/Telemetry/Tracing is
--                   telemetry/tracing.go, and Infra/Logging logging/log.go
--   Transport       internal/transport: server.go, init.go and http/probe/probe.go; Transport/Gateway
--                   the two gateway files of transport/grpc/payment (*.pb.gw.go)
--   Main            internal/main.go: shutdown; Main/Run: run
--   Fakes           internal/app/fakes, and the packages fakes of internal/infra/db, clock and mq
--   Tests           concrete data, concrete packages, and runs on them
--
-- How state and effects are modelled. A call is a function from a world to an outcome (a value, an
-- error, or a panic) and a world. A world holds an unknown state of all that lies outside, and a
-- trace of the calls made so far that may change it, each recorded whether it succeeds or fails.
-- The ports, the clock, the random sources, the codecs and the timestamps are records of operations
-- on that unknown state, so a theorem holds for any behaviour of theirs. A service is a record of
-- those. A nil pointer is `none`. A function with an error result that answers nothing else beside
-- an error is modelled without that value. Numbers from messages stay unbounded: the program only
-- compares and copies them.
--
-- A connection to RabbitMQ and a channel are numbers of the package, and a method is an operation on
-- a store: the outside, the connection that all share, and the channel and the fields of its receiver.
--
-- Bounds. No definition runs on fuel: every loop of the modelled code goes over a list or counts
-- down from a constant, and is structural recursion; the loop that dials counts the rounds left.
--
-- The goroutines of the running program take turns call by call: run gets the sequence of what comes
-- in, a delivery, a request, the work after a payment, or a probe, and each is one turn. How calls of
-- two payments may come between each other is modelled apart, in App/PaymentMaking/Overlap.
--
-- Not modelled: which spans and log lines the services make, which change nothing that they do;
-- contexts and deadlines, whose effect is an error of the call that they end; the generated
-- descriptors and stubs; the reading of the environment, which package env does; the routing and
-- serving of net/http and of the mux of grpc-gateway; the integration tests.
pub mod Base
pub mod Go
pub mod Errors
pub mod Validation
pub mod Dto
pub mod Document
pub mod Db
pub mod Port
pub mod Config
pub mod Mq
pub mod Infra
pub mod Transport
pub mod App
pub mod Main
pub mod Fakes
pub mod Tests
