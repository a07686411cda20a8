-- ===== src/Channels.antt =====
-- packages/channels: the adapters of the messaging channels; of these, how a message is cut.
pub mod Chunking
