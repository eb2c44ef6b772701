-- ===== src/Programs/Session.antt =====
-- The sessions with a radio in `main` of src/main_hackrf.cpp and of src/main_rtlsdr.cpp.
pub mod Hackrf
pub mod Rtlsdr
pub mod Phases
pub mod Released
pub mod Interrupted
