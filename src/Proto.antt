-- ===== src/Proto.antt =====
-- The messages of IMServer/IMServer/im.proto, and the code that protoc generates for them as an
-- interface.
mod Messages
mod Codec
pub use Messages.*
pub use Codec.*
