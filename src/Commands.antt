-- ===== src/Commands.antt =====
-- components/home_io_control/proto_commands.cpp: the builders of the frames that the hub sends. Each
-- takes the frame of the caller and answers whether it succeeded, with the frame that it leaves. The
-- code of a device type is its number.
pub mod Codes
pub mod Requests
pub mod OneWay
pub mod Pairing
pub mod Sent
pub mod Target
pub mod Enrolled
pub mod Shared
mod Tests
