-- ===== src/Examples.antt =====
-- The theorems at concrete inputs, and runs that can be followed in the source.
mod Layouts
mod Trims
mod Watchdogs
mod Registry
mod Publishing
mod Closings
mod Names
mod Repairs
mod Turtles
mod Codes
mod Memory
mod Entities
mod Links
