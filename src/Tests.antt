-- ===== src/Tests.antt =====
-- Tests of the definitions on concrete inputs, and instances of the theorems.
mod Device
mod Bus
mod Telemetry
mod Requests
mod Store
mod Adapter
mod Administration
mod Settings
mod Messages
mod Interface
mod Lifetime
mod Simulation
mod Deploy
