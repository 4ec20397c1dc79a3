-- ===== src/ClientMessages.antt =====
-- The messages of clients: core/service/websocket/client-msg-handler.
pub mod Window
pub mod Handler
