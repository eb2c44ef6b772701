-- ===== src/Receiver/Threads.antt =====
-- The two threads of a device program: the callback's, which is in `detect_frames`, and the main
-- loop's, which is in `report_detections`. A step is a round of the loop over the symbols, or what one
-- lock of src/commons.cpp's objects covers, with the thread's own work before it. The resync of the
-- registry's files has a step for each file and for each id.
pub mod Callback
pub mod MainLoop
pub mod World
pub mod Kept
pub mod Rounds
pub mod Receiving
pub mod Reporting
pub mod Sound
pub mod Resync
pub mod Alone
pub mod Buffer
