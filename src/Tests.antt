-- ===== src/Tests.antt =====
-- The theorems at concrete inputs.
mod World
mod Upstreams
mod Turns
mod Maps
mod Loads
mod Requests
mod Answers
mod Serving
mod Startup
mod Whole
mod Flights
mod Threads
mod Unit
