-- ===== src/Md5.antt =====
-- The MD5 context of ffos/ota/src/utils/Md5.cpp and include/utils/Md5.h: the byte codecs, the block
-- transformation, the incremental context and the file checksum.
pub mod Codec
pub mod Rounds
pub mod Context
pub mod Absorb
pub mod Padding
pub mod Digest
pub mod Reuse
pub mod Checksum
pub mod Streams
pub mod Rfc
pub mod CodecLaws
mod Tests
