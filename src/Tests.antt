-- ===== src/Tests.antt =====
-- Each theorem of the results at a concrete input, and runs of the definitions.
mod Worlds
mod Dns
mod Dhcp
mod Firewall
mod Middleware
mod Bandwidth
mod Encrypted
mod Logs
mod Handlers
mod System
