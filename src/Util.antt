-- ===== src/Util.antt =====
-- include/simpletorrent/Util.h: hexadecimal text and byte order.
pub mod Hex
pub mod ByteOrder
