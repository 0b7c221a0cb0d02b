-- ===== src/Tests.antt =====
-- Runs of the modelled code on concrete inputs, and the theorems applied to them.
mod Timers
mod Mmdb
mod Database
mod Pbuf
mod Chksum
mod Addr
mod Tcp
mod Ack
mod Process
mod Output
