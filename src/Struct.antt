-- ===== src/Struct.antt =====
-- struct: the growing buffer.
pub mod Buffer
pub mod String
