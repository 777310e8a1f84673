-- ===== src/Examples.antt =====
-- The theorems at concrete inputs, one module for each part of the program, with runs of the code.
mod Masks
mod Limits
mod Windows
mod Origins
mod Meters
mod Logins
mod Tokens
mod Transfers
mod Edge
mod Policies
mod Keys
mod Signing
mod Gateway
mod Concurrent
mod Journey
mod Requests
