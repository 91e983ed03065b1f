-- ===== src/Plugin.antt =====
-- packages/livekit-plugins-fastenhancer: the LiveKit FrameProcessor and its transport.
pub mod Processor
pub mod Transport
pub mod StreamInfo
pub mod Config
mod Examples
