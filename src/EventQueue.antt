-- ===== src/EventQueue.antt =====
-- gtasks/event_queue: the durable queue that turns a committed job application into progress of a
-- daily quota task.
pub mod Time
pub mod Store
pub mod Event
pub mod Json
pub mod Contract
pub mod Registry
pub mod Slug
pub mod Handler
pub mod Memory
pub mod Gbrain
pub mod Producer
pub mod World
pub mod Processor
pub mod Worker
mod Tests
