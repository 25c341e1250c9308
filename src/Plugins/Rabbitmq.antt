-- ===== src/Plugins/Rabbitmq.antt =====
-- plugins/scaler_rabbitmq: the scaler of RabbitMQ queues.
pub mod Queues
pub mod Settings
pub mod Requests
pub mod Scaler
