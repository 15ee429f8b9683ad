-- ===== src/Bus.antt =====
-- src/loreline/bus.py and src/loreline/logbus.py: the event bus and the log ring on top of it.
pub mod Model
pub mod Delivery
pub mod Logs
