-- ===== src/Serializer.antt =====
-- core/serializer_deserializer.hpp: the scalar codec, the tuple codec and the command serializer.
pub mod Scalar
pub mod Tuple
pub mod Prefix
pub mod Command
