-- ===== src/Tests.antt =====
-- Runs of the model on concrete inputs, and each theorem with a hypothesis at an input that meets it.
mod Security
mod Device
mod Text
mod Config
mod Main
mod Net
mod Startup
mod Terminal
mod Ipsec
mod Realtime
mod Real
