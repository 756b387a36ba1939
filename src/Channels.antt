-- ===== src/Channels.antt =====
-- internal/channels: the messaging channels of the daemon, by parts: the access policy of the
-- Signal channel and the pacing of its sends, and the identities of the WhatsApp channel.
pub mod Signal
pub mod Whatsapp
pub mod Pacer
