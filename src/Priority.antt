-- ===== src/Priority.antt =====
-- gptpcommon.c and gptpcommon.h: priority vectors as the bytes of the packed struct, and their
-- comparison by memcmp. The byte order of the host is a parameter.
mod Vector
pub mod Memcmp
pub mod Order
pub mod Numeric
unfoldable pub use Vector.{
  memcmp, octets_112, has_port_priority, uint16_octets, octets, octets_port,
  compare_priority_vectors,
}
pub use Vector.{
  ByteOrder, little, big, ComparisonResult, same_priority, superior_priority, inferior_priority,
  is_superior, is_eq, memcmp_eq, eui48to64,
}
