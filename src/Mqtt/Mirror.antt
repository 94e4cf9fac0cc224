-- ===== src/Mqtt/Mirror.antt =====
-- The broker's retained view follows what the bus of src/pitblu_core/events.py retains, by the
-- publisher of src/pitblu_core/mqtt.py.
pub mod Broker
pub mod Bus
pub mod Delivery
pub mod Sessions
pub mod Shutdown
