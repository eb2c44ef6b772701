-- ===== src/Passing.antt =====
-- The passing detection of src/passing.hpp and src/passing.cpp: a child for the keys of its map, for the numeric
-- waveform analysis, and for the detector.
pub mod System
pub mod Waveform
pub mod Point
pub mod Detector
