-- ===== src/Tests.antt =====
-- Concrete inputs: the theorems applied, and runs of the model.
mod Access
mod Books
mod Commands
mod Publisher
mod Orders
mod Sockets
mod Services
