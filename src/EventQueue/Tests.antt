-- ===== src/EventQueue/Tests.antt =====
-- Concrete runs of the event queue (gtasks/event_queue).
mod Samples
mod Leases
mod Parsing
mod Quotas
mod Pages
mod Enqueue
mod Deliveries
