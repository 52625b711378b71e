-- ===== src/Tests.antt =====
-- The theorems at concrete inputs, and runs of the definitions that can be followed in the source.
mod Toy
mod Wire
mod Keys
mod Forwarding
mod Texts
mod Tunnels
mod Serving
mod Across
mod Stopping
mod Linking
mod Closing
mod Wiring
mod Commands
