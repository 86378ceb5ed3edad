-- ===== src/Lib.antt =====
-- A model of components/home_io_control, an ESPHome component that speaks the IO-Homecontrol radio
-- protocol: two-way exchanges with authenticated devices, and one-way remotes.
--
-- The parts, from the air upwards. A radio without hardware framing hands its raw bits to the
-- software PHY, which finds a frame and checks it; the frame functions translate between bytes
-- and the frame container; the cryptography authenticates frames and wraps keys; the codecs read
-- names, addresses and one-way intents. Above them the builders make every frame that is sent,
-- and the exchange engine carries a request through its tries, its listens and the challenges of
-- both sides. The hub takes its decisions, holds pending operations in a queue, keeps the devices
-- with what is predicted of them in a registry, schedules follow-up polls, records its pairing
-- attempts, and numbers one-way transmissions from a store in flash.
--
-- Base: numbers, words, lists and bit operations. A byte is a number below 256; an operation of the
--   source that wraps is followed by its reduction (u8, u16, u32, sub32); a subtraction is written
--   where the source's operands make it exact.
-- Frame: proto_frame.{h,cpp} and proto_sizes.h. IoFrame is the struct; parse returns its result and
--   the frame it leaves, on failure too; serialize returns the bytes that it reports. A buffer is a
--   list, so its size is its length, and a null pointer is `none`.
-- Crc: crc_ccitt of proto_frame.cpp.
-- Crypto: proto_crypto.cpp. Aes is the block cipher, Iv the checksum and the initialization vectors,
--   Auth the authenticators, their comparison and the key wrap. A `bool` with an out parameter is an
--   Option. The loop of aes_mul runs on eight rounds of fuel, which a factor of a byte never exceeds;
--   the other loops of the cipher have a fixed number of rounds.
-- OperationQueue: operation_queue.{h,cpp}. The deque is a list, front first, and each enqueue method
--   returns the new queue.
-- SoftPhy: radio_soft_phy.{h,cpp}. Each loop is a function of the rounds that are left.
-- SequenceStore: oneway_sequence_store.{h,cpp}. The preferences of ESPHome are a parameter with the
--   three calls that the store makes; that a value which was saved and synced is loaded after a restart
--   is a hypothesis (IsDurable), and a flash of one cell shows that it can hold.
-- StatusPolls: status_poll_policy.{h,cpp}. The std::map is a list of entries in key order, with the
--   order of the keys as a parameter.
-- Decisions: hub_decisions.h.
-- Codecs: proto_codecs.{h,cpp} as far as device names, addresses and one-way intents go. The name
--   encoder runs on fuel of the length of the text, since each round takes a byte at least.
-- OneWayFrame, KeyAdoption: decode_1w_frame and decode_1w_add_controller of proto_codecs.cpp, and the
--   key of the repeat test that hub_status.cpp makes from a decoded frame.
-- Hex: the hexadecimal text of proto_frame.cpp, with toupper and the format %02X of the C library in
--   its "C" locale.
-- Firmware: lr1121_firmware_decisions.h.
--
-- Commands: proto_commands.cpp. Each builder takes the caller's frame and returns whether it succeeded,
--   with the frame that it leaves; builders that overwrite the frame first do not take it.
-- Exchange: exchange_engine.{h,cpp} and hub_exchange.h, over a radio that is a record of operations on a
--   world. Transmit has the hops and the transmission, Listen the wait loop, Outbound and Retry the
--   authenticated exchange, Inbound the authentication of a device and the roll-call. A listen runs on
--   fuel, one round for each microsecond of its window when it holds its channel: what a clock and a
--   wait take is a hypothesis (IsClock), and a wait takes a microsecond because the driver reads its
--   chip over a bus of 8 MHz. The rotating listens have no theorem on their end yet.
-- Registry: device_registry.{h,cpp}, with the device record of proto_device_model.h. A float is a value
--   of a type with a Boolean equality, and a callback works on a state of its owner.
-- Telemetry: pairing_telemetry.{h,cpp}, the recorder of a pairing attempt. The used part of its array
--   is a list, and the clock is an argument.
--
-- Not modelled: the pairing engine, the hub loop, the decoding of device status, management
-- actions and tuning; the radio drivers and the entity platforms, which are register access and
-- glue; logging and the tables of names. The hardware random generator, the C library's isspace
-- and the order of strings are parameters.
pub mod Base
pub mod Frame
pub mod Crc
pub mod Crypto
pub mod OperationQueue
pub mod SoftPhy
pub mod SequenceStore
pub mod StatusPolls
pub mod Decisions
pub mod Codecs
pub mod KeyAdoption
pub mod Firmware
pub mod Hex
pub mod OneWayFrame
pub mod Commands
pub mod Exchange
pub mod Registry
pub mod Telemetry
