-- ===== src/Programs.antt =====
-- The programs of src/main_hackrf.cpp and src/main_rtlsdr.cpp, and the replay of src/capture.cpp.
pub mod Capture
pub mod Arguments
pub mod Session
pub mod Replay
pub mod Start
