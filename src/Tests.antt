-- ===== src/Tests.antt =====
-- Runs at concrete inputs.
mod ToyJson
mod ToyTable
mod Backend
mod Frames
mod Values
mod Serving
mod Session
mod Toys
mod Looping
mod Conversing
mod Networking
mod Leaving
mod Joining
mod Growing
mod Programs
