-- ===== src/Gateway.antt =====
-- packages/gateway/src: the bus between a gateway and its nodes.
pub mod SessionBus
