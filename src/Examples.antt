-- ===== src/Examples.antt =====
-- The theorems at concrete inputs, and the data that they are run on.
mod Codec
mod Server
mod Pending
mod Sessions
mod Sending
mod Endpoints
mod Transport
mod Admin
mod Entering
mod Callbacks
