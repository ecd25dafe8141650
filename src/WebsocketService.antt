-- ===== src/WebsocketService.antt =====
-- services/websocket-service/main.go: the hub of clients and the two consumers. Its package database
-- is not in the repository: what the code calls of it is a record of operations. `refuses c n` says
-- whether the client's connection fails in the n-th broadcast, and `range` in which order Go visits
-- the clients. Logs, metrics, deadlines and pings are left out.
pub mod Hub
pub mod Events
pub mod Connections
