-- ===== src/Dns.antt =====
-- DNS configuration: the privileged worker inner/dns.py and the reader in dns_selector.py.
pub mod World
pub mod Settings
pub mod Worker
pub mod Actions
pub mod Resolver
pub mod Sample
pub mod Restart
pub mod Dnssec
pub mod Written
pub mod Questions
pub mod Outcome
pub mod Choices
pub mod Requests
pub mod Status
pub mod Selector
pub mod Shows
mod Tests
