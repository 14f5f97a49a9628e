-- ===== src/ClientIp.antt =====
-- The address of a client behind trusted proxies (app/utils/client_ip.py).
mod Addresses
mod Headers
mod Requests
mod Suffix
mod Quotes
mod Chain
mod Tests
