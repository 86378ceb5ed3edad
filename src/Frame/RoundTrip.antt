-- ===== src/Frame/RoundTrip.antt =====
-- `serialize` and `parse` of proto_frame.cpp are inverse to each other.
use home_io_control_wio_b2b.Base.{ℕ, ◌+◌, ◌≡◌, ◌≤◌, ◌∙◌, true, if◌then◌else◌, some, [], arith}
use home_io_control_wio_b2b.Frame.{
  IoFrame, frame_length, frame_bytes, serialize, parse, parse_fields, blank_frame,
}
use home_io_control_wio_b2b.Frame.Layout.{
  IsCanonical, trailer_size, declared_length_le, serialize-frame_bytes, length-frame_bytes,
  payload_back, mac_back,
}

-- `parse` reaches the copies of `parse_fields` with the shape that the frame was written in.
parse_shape :
    (f g : IoFrame)
    → IsCanonical f
    → parse (some (frame_bytes f)) g
      ≡ parse_fields
          (frame_bytes f)
          (frame_length f)
          (record blank_frame { ctrl0 = f.ctrl0; ctrl1 = f.ctrl1; has_mac = f.has_mac })
unfolding parse frame_bytes
parse_shape f g c =
    ground (arith, length-frame_bytes f c, declared_length_le f.ctrl0, c.mac_allowed)

parse_fields-frame_bytes :
    (f : IoFrame)
    → IsCanonical f
    → parse_fields
        (frame_bytes f)
        (frame_length f)
        (record blank_frame { ctrl0 = f.ctrl0; ctrl1 = f.ctrl1; has_mac = f.has_mac })
      ≡ (true, f)
unfolding parse_fields frame_bytes
parse_fields-frame_bytes f c = ground (
  arith,
  length-frame_bytes f c,
  payload_back f (if f.has_mac then f.mac else []) c,
  mac_back f c,
  c.mac_unused,
)

-- A well-formed frame that fits the buffer is parsed back as it was serialized, trailer included,
-- whatever the output frame held before.
pub parse-serialize :
    (f g : IoFrame) (size : ℕ)
    → IsCanonical f
    → frame_length f + trailer_size f ≤ size
    → parse (some (serialize f (some size))) g ≡ (true, f)
parse-serialize f g size c h =
    rw (serialize-frame_bytes f size c h) (parse_shape f g c ∙ parse_fields-frame_bytes f c)
