-- ===== src/Utility.antt =====
-- Utility.h and Utility.cpp: percent-decoding, Base64 and the hexadecimal digest.
pub mod Uri
pub mod Base64
pub mod Files
pub mod Date
pub mod Tests
