-- ===== src/OneWayFrame.antt =====
-- components/home_io_control/proto_codecs.{h,cpp}: `decode_1w_frame`, the reading of an overheard
-- one-way frame. The text of the intent is kept as the intent it prints.
pub mod Dedup
mod Tests
use home_io_control_wio_b2b.Base.{
  ℕ, Bool, true, false, not, ◌&&◌, ◌||◌, ◌==◌, leb, bit_and, if◌then◌else◌, Option, none, some, shr,
}
use home_io_control_wio_b2b.Frame.{IoFrame, NodeId, byte_at}
use home_io_control_wio_b2b.Codecs.{
  AddressClass, Intent, classify_address, broadcast_target_type, decode_1w_main_intent,
}

abbrev pub cmd_activate_mode : ℕ
cmd_activate_mode = 0x01

abbrev pub oneway_execute_min_data_len : ℕ
oneway_execute_min_data_len = 4

-- `OneWayFrameInfo`.
pub record OneWayFrameInfo : Type 0 where
  pub src : NodeId
  pub address_class : AddressClass
  pub target_type : ℕ
  pub cmd : ℕ
  pub has_intent : Bool
  pub originator : ℕ
  pub acei_level : ℕ
  pub intent : Option Intent
  pub main0 : ℕ
  pub main1 : ℕ
  pub data_len : ℕ

unfoldable pub decode_1w_frame : IoFrame → OneWayFrameInfo
decode_1w_frame frame =
    let info : OneWayFrameInfo = record {
      src = frame.src;
      address_class = classify_address frame.dst;
      target_type = broadcast_target_type frame.dst;
      cmd = frame.cmd;
      has_intent = false;
      originator = 0;
      acei_level = 0;
      intent = none;
      main0 = 0;
      main1 = 0;
      data_len = frame.data_len;
    } in
    let main0 = byte_at frame.payload 2 in
    let main1 = byte_at frame.payload 3 in
    if (frame.cmd == 0x00 || frame.cmd == cmd_activate_mode)
      && leb oneway_execute_min_data_len frame.data_len
    then record info {
      has_intent = true;
      originator = byte_at frame.payload 0;
      acei_level = shr (bit_and (byte_at frame.payload 1) 0xe0) 5;
      intent = some (decode_1w_main_intent main0 main1);
      main0 = main0;
      main1 = main1;
    }
    else info
