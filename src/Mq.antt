-- ===== src/Mq.antt =====
-- internal/infra/mq: the connection to RabbitMQ, its channels, the producer and the consumer.
pub mod Broker
pub mod Connection
pub mod Channel
pub mod Producer
pub mod Consumer
pub mod Link
pub mod Lifecycle
pub mod Shut
pub mod OnChannel
pub mod Headers
pub mod Closing
