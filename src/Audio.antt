-- ===== src/Audio.antt =====
-- services/fastenhancer-server/src/fastenhancer_server/audio.py: PCM conversion and rechunking.
pub mod Int16
pub mod Pcm
pub mod Rechunker
pub mod Examples
