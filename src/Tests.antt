-- ===== src/Tests.antt =====
-- The properties at concrete states of the machine.
mod Machine
mod Invariant
mod Registers
mod Start
mod Log
mod Memory
mod Picture
mod Board
