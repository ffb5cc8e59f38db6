-- ===== src/Examples.antt =====
-- Concrete boards, caches, games and services on which the theorems are applied.
mod Boards
mod Bots
mod Messages
mod Caches
mod Games
mod Services
mod Others
mod Chats
mod Hashes
mod Gateways
mod Queries
mod Accounts
mod Requests
