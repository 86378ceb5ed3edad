-- ===== src/OneWayFrame/Tests.antt =====
-- A run of the repeat test on two copies of one stop.
use home_io_control_wio_b2b.Base.{◌≡◌, refl, true, ◌∷◌, replicate}
use home_io_control_wio_b2b.Frame.{IoFrame, blank_frame}
use home_io_control_wio_b2b.Decisions.{is_duplicate_1w_frame}
use home_io_control_wio_b2b.OneWayFrame.{decode_1w_frame}
use home_io_control_wio_b2b.OneWayFrame.Dedup.{dedup_key, dropped_same_intent}

abbrev stop_frame : IoFrame
stop_frame = record blank_frame {
  ctrl0 = 0xf6;
  payload = 1 ∷ 0x61 ∷ 0xd2 ∷ 0 ∷ replicate 19 0;
  data_len = 14;
}

dropped :
    is_duplicate_1w_frame
      (dedup_key "123ABC" (decode_1w_frame stop_frame) 1000)
      (dedup_key "123ABC" (decode_1w_frame stop_frame) 1040)
      500
    ≡ true
unfolding is_duplicate_1w_frame decode_1w_frame
dropped = refl

dropped_same_intent_example :
    ((decode_1w_frame stop_frame).cmd ≡ (decode_1w_frame stop_frame).cmd)
    × ((decode_1w_frame stop_frame).intent ≡ (decode_1w_frame stop_frame).intent)
dropped_same_intent_example =
    dropped_same_intent stop_frame stop_frame "123ABC" "123ABC" 1000 1040 500 dropped
