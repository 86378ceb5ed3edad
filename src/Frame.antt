-- ===== src/Frame.antt =====
-- components/home_io_control/proto_frame.{h,cpp} and proto_sizes.h: the frame container, its flags,
-- and the two directions of the wire format. A byte is a number below 256 and a fixed array is a
-- list of that length. A null pointer is `none`; a buffer handed to `parse` is the list of its
-- `buf_len` bytes, and what `serialize` writes is the list of the bytes that it reports.
pub mod Layout
pub mod RoundTrip
pub mod Accept
pub mod Build
mod Tests
use home_io_control_wio_b2b.Base.{
  ℕ, ◌+◌, ◌-◌, ◌≡◌, bit_and, bit_or, Bool, true, false, not, ◌&&◌, ◌||◌, ltb, leb, ◌==◌,
  if◌then◌else◌, Option, none, some, List, [], ◌∷◌, ◌++◌, length, get_or, take, drop, replicate, u8,
}

-- `uint8_t id[NODE_ID_SIZE]`.
pub record NodeId : Type 0 where
  pub b0 : ℕ
  pub b1 : ℕ
  pub b2 : ℕ

abbrev pub zero_node : NodeId
zero_node = record { b0 = 0; b1 = 0; b2 = 0 }

-- `memcmp(a, b, NODE_ID_SIZE) == 0`.
abbrev pub node_eq : NodeId → NodeId → Bool
node_eq a b = a.b0 == b.b0 && a.b1 == b.b1 && a.b2 == b.b2

abbrev pub node_id_size : ℕ
node_id_size = 3

abbrev pub hmac_size : ℕ
hmac_size = 6

abbrev pub frame_min_size : ℕ
frame_min_size = 9

abbrev pub frame_max_declared_size : ℕ
frame_max_declared_size = 32

abbrev pub frame_max_data_size : ℕ
frame_max_data_size = 23

abbrev pub frame_cmd_offset : ℕ
frame_cmd_offset = 8

abbrev pub frame_crc_size : ℕ
frame_crc_size = 2

abbrev pub frame_max_wire_size : ℕ
frame_max_wire_size = frame_max_declared_size + hmac_size + frame_crc_size

abbrev pub ctrl0_end : ℕ
ctrl0_end = 0x80

abbrev pub ctrl0_start : ℕ
ctrl0_start = 0x40

abbrev pub ctrl0_protocol_1w : ℕ
ctrl0_protocol_1w = 0x20

abbrev pub ctrl0_length_mask : ℕ
ctrl0_length_mask = 0x1f

abbrev pub ctrl1_low_power : ℕ
ctrl1_low_power = 0x20

abbrev pub cmd_oneway_add_controller : ℕ
cmd_oneway_add_controller = 0x30

-- `IoFrame`.
pub record IoFrame : Type 0 where
  pub ctrl0 : ℕ
  pub ctrl1 : ℕ
  pub dst : NodeId
  pub src : NodeId
  pub cmd : ℕ
  pub payload : List ℕ
  pub data_len : ℕ
  pub mac : List ℕ
  pub has_mac : Bool

-- `IoFrame()`: every member zero.
abbrev pub blank_frame : IoFrame
blank_frame = record {
  ctrl0 = 0;
  ctrl1 = 0;
  dst = zero_node;
  src = zero_node;
  cmd = 0;
  payload = replicate frame_max_data_size 0;
  data_len = 0;
  mac = replicate hmac_size 0;
  has_mac = false;
}

-- `memcpy` to the front of an array.
abbrev pub blit : List ℕ → List ℕ → List ℕ
blit dest bytes = bytes ++ drop (length bytes) dest

abbrev pub byte_at : List ℕ → ℕ → ℕ
byte_at buf i = get_or buf i 0

abbrev pub slice : List ℕ → ℕ → ℕ → List ℕ
slice buf offset n = take n (drop offset buf)

abbrev pub node_at : List ℕ → ℕ → NodeId
node_at buf i = record { b0 = byte_at buf i; b1 = byte_at buf (i + 1); b2 = byte_at buf (i + 2) }

abbrev pub flag : Bool → ℕ → ℕ → ℕ
flag b mask ctrl = if b then bit_or ctrl mask else ctrl

unfoldable pub init_frame : Bool → Bool → Bool → Bool → IoFrame
init_frame is_2w start end low_power = record blank_frame {
  ctrl0 = flag (not is_2w) ctrl0_protocol_1w (flag start ctrl0_start (flag end ctrl0_end 0));
  ctrl1 = flag low_power ctrl1_low_power 0;
}

unfoldable pub set_dst : IoFrame → NodeId → IoFrame
set_dst f id = record f { dst = id }

unfoldable pub set_src : IoFrame → NodeId → IoFrame
set_src f id = record f { src = id }

-- The length field of CTRL0, `((total - 1) & CTRL0_LENGTH_MASK)`, beside the flags kept by
-- `~CTRL0_LENGTH_MASK`.
unfoldable pub with_length : ℕ → ℕ → ℕ
with_length ctrl0 total = bit_or (bit_and ctrl0 0xe0) (bit_and (total - 1) ctrl0_length_mask)

copy_params : Option (List ℕ) → ℕ → List ℕ → List ℕ
copy_params none n dest = dest
copy_params (some params) n dest = blit dest (take n params)

unfoldable pub set_cmd : IoFrame → ℕ → Option (List ℕ) → ℕ → Bool × IoFrame
unfolding copy_params
set_cmd f cmd params params_len =
    if ltb frame_max_data_size params_len
    then (false, f)
    else (let g : IoFrame = record f {
      cmd = cmd;
      data_len = params_len;
      payload = if ltb 0 params_len then copy_params params params_len f.payload else f.payload;
    } in
        let total = u8 (frame_min_size + params_len) in
        if ltb frame_max_declared_size total
        then (false, g)
        else (true, record g { ctrl0 = with_length f.ctrl0 total }))

-- The length that a CTRL0 byte declares.
unfoldable pub declared_length : ℕ → ℕ
declared_length ctrl0 = bit_and ctrl0 ctrl0_length_mask + 1

abbrev pub frame_length : IoFrame → ℕ
frame_length f = declared_length f.ctrl0

unfoldable pub is_start : IoFrame → Bool
is_start f = not (bit_and f.ctrl0 ctrl0_start == 0)

unfoldable pub is_end : IoFrame → Bool
is_end f = not (bit_and f.ctrl0 ctrl0_end == 0)

unfoldable pub frame_carries_mac_trailer : ℕ → Bool
frame_carries_mac_trailer cmd = cmd == cmd_oneway_add_controller

-- What `serialize` copies out once its guards have passed.
unfoldable pub frame_bytes : IoFrame → List ℕ
frame_bytes f =
    f.ctrl0
    ∷ f.ctrl1
    ∷ f.dst.b0
    ∷ f.dst.b1
    ∷ f.dst.b2
    ∷ f.src.b0
    ∷ f.src.b1
    ∷ f.src.b2
    ∷ f.cmd
    ∷ (take f.data_len f.payload ++ (if f.has_mac then f.mac else []))

-- `none` is a null buffer; the list is what was written, and its length what is returned.
unfoldable pub serialize : IoFrame → Option ℕ → List ℕ
serialize f none = []
serialize f (some buf_size) =
    let len = frame_length f in
    let total_len = if f.has_mac then u8 (len + hmac_size) else len in
    if ltb len frame_min_size || ltb frame_max_declared_size len
    then []
    else if ltb frame_max_data_size f.data_len
    then []
    else if not (u8 (frame_min_size + f.data_len) == len)
    then []
    else if f.has_mac && not (frame_carries_mac_trailer f.cmd)
    then []
    else if ltb buf_size total_len
    then []
    else frame_bytes f

-- The part of `parse` that follows the choice of the buffer's shape; `buf_len` bounds each copy.
unfoldable pub parse_fields : List ℕ → ℕ → IoFrame → Bool × IoFrame
parse_fields buf len f0 =
    let buf_len = length buf in
    let f1 : IoFrame = record f0 { dst = node_at buf 2 } in
    let f2 : IoFrame = record f1 { src = node_at buf 5 } in
    let f3 : IoFrame = record f2 { cmd = byte_at buf 8; data_len = len - frame_min_size } in
    if ltb buf_len (2 + node_id_size)
    then (false, f0)
    else if ltb buf_len (5 + node_id_size)
    then (false, f1)
    else if leb buf_len 8
    then (false, f2)
    else if ltb frame_max_data_size f3.data_len
    then (false, f3)
    else if ltb buf_len (9 + f3.data_len)
    then (false, f3)
    else (
      true,
      record f3 {
        payload = blit f3.payload (slice buf 9 f3.data_len);
        mac = if f0.has_mac then blit f0.mac (slice buf (9 + f3.data_len) hmac_size) else f0.mac;
      },
    )

unfoldable pub parse : Option (List ℕ) → IoFrame → Bool × IoFrame
parse none f = (false, f)
parse (some buf) f =
    let buf_len = length buf in
    let g : IoFrame = record blank_frame { ctrl0 = byte_at buf 0; ctrl1 = byte_at buf 1 } in
    let len = frame_length g in
    if ltb buf_len frame_min_size
    then (false, f)
    else if ltb len frame_min_size || ltb frame_max_declared_size len
    then (false, g)
    else if buf_len == len
    then parse_fields buf len (record g { has_mac = false })
    else if buf_len == u8 (len + hmac_size)
        && frame_carries_mac_trailer (byte_at buf frame_cmd_offset)
    then parse_fields buf len (record g { has_mac = true })
    else (false, g)
