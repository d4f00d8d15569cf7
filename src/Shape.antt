-- ===== src/Shape.antt =====
-- sail/shape: the sizes of the records on the wire.
pub mod Write
