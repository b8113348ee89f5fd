-- ===== src/Tests.antt =====
-- Tests, and each theorem at a concrete input.
mod PlainQt
mod Texts
mod Entries
mod Classes
mod Lifetimes
mod Proxies
mod Starts
mod Sinks
mod Containers
mod Objects
mod Servers
mod Libraries
mod Connects
mod Parts
mod Runs
mod Choices
mod Calls
mod Memories
mod Nestings
