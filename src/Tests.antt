-- ===== src/Tests.antt =====
-- Runs of the development on concrete input.
mod Streams
mod Fragments
mod Flows
mod Decoders
mod Headers
mod Detection
mod Names
mod Packets
mod Processing
mod Mail
mod Applications
mod Requests
