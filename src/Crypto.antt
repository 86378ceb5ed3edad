-- ===== src/Crypto.antt =====
-- components/home_io_control/proto_crypto.{h,cpp}: the AES-128 block cipher of the component, the
-- checksum and the initialization vectors, the frame authenticators and the key wrap.
pub mod Aes
pub mod Iv
pub mod Auth
mod Tests
