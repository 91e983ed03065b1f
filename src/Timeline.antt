-- ===== src/Timeline.antt =====
-- timeline.py of the LiveKit plugin: the two bounded sample timelines of the FrameProcessor.
pub mod ContiguousPcm
pub mod EnhancedSegments
mod Examples
