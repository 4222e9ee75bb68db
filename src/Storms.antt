-- ===== src/Storms.antt =====
-- Generated packet storms of src/trex_cli: the identities of DHCP clients and ARP senders, and the
-- messages of dns_storm.py and dhcp_storm.py.
pub mod Mac
pub mod MacText
pub mod Pools
pub mod Dns
pub mod Dhcp
pub mod Discover
pub mod Names
pub mod Queries
pub mod Specs
pub mod Prefixes
pub mod Scope
pub mod Senders
mod Examples
