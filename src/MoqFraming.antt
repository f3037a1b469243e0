-- ===== src/MoqFraming.antt =====
-- models/MoqFraming.h
pub mod Words
pub mod Frame
pub mod Object
pub mod Control
pub mod Envelope
pub mod Fragment
pub mod Reassembly
