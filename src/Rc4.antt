-- ===== src/Rc4.antt =====
-- The RC4 protocol: src/rc4.hpp and src/rc4.cpp, a child for each class.
pub mod Message
pub mod Lines
pub mod Registry
pub mod FileBased
pub mod Trainer
