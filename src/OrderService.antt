-- ===== src/OrderService.antt =====
-- services/order-service: the handlers, and what they leave of a reservation.
pub mod Requests
pub mod Handlers
pub mod Create
pub mod Conserve
pub mod Reservation
pub mod Backend
pub mod Cancel
pub mod Authenticated
pub mod Producer
