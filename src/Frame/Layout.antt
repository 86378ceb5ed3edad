-- ===== src/Frame/Layout.antt =====
-- The shape of a frame that the two directions of proto_frame.cpp agree on.
use home_io_control_wio_b2b.Base.{
  ℕ, ◌+◌, ◌-◌, ◌≡◌, ◌≤◌, sym, ap, ◌∙◌, true, false, if◌then◌else◌, some, List, [], ◌++◌, length,
  length-append, length-take, append_nil, take_all, take-append, drop-append, drop-replicate,
  take-append-drop, take, drop, replicate, arith,
}
use home_io_control_wio_b2b.Base.Bits.Mask.{and_mask}
use home_io_control_wio_b2b.Frame.{
  IoFrame, declared_length, frame_length, frame_carries_mac_trailer, frame_bytes, serialize, blit,
  frame_max_data_size, hmac_size, frame_min_size,
}

-- The trailing bytes that `frame_length` does not count.
abbrev pub trailer_size : IoFrame → ℕ
trailer_size f = if f.has_mac then hmac_size else 0

-- A frame as `parse` leaves one: the length field and `data_len` agree, a trailer stands only on a
-- command that carries one, and what no byte of the wire sets is zero.
pub record IsCanonical (f : IoFrame) : Type 0 where
  pub declared : frame_length f ≡ frame_min_size + f.data_len
  pub fits : f.data_len ≤ frame_max_data_size
  pub payload_size : length f.payload ≡ frame_max_data_size
  pub payload_rest : drop f.data_len f.payload ≡ replicate (frame_max_data_size - f.data_len) 0
  pub mac_size : length f.mac ≡ hmac_size
  pub mac_unused : f.has_mac ≡ false → f.mac ≡ replicate hmac_size 0
  pub mac_allowed : f.has_mac ≡ true → frame_carries_mac_trailer f.cmd ≡ true

pub declared_length_le : (ctrl0 : ℕ) → declared_length ctrl0 ≤ 32
unfolding declared_length
declared_length_le ctrl0 = omega (arith, and_mask 5 ctrl0)

pub serialize-frame_bytes :
    (f : IoFrame) (size : ℕ)
    → IsCanonical f
    → frame_length f + trailer_size f ≤ size
    → serialize f (some size) ≡ frame_bytes f
unfolding serialize
serialize-frame_bytes f size c h = ground (arith, declared_length_le f.ctrl0, c.mac_allowed)

pub length-mac_part :
    (f : IoFrame) → IsCanonical f → length (if f.has_mac then f.mac else []) ≡ trailer_size f
length-mac_part f c = ground (arith)

pub length-frame_bytes :
    (f : IoFrame) → IsCanonical f → length (frame_bytes f) ≡ 9 + f.data_len + trailer_size f
unfolding frame_bytes
length-frame_bytes f c = omega (
  arith,
  length-append (take f.data_len f.payload) (if f.has_mac then f.mac else []),
  length-take f.data_len f.payload,
  length-mac_part f c,
)

-- A prefix copied over zeros gives the array back, if the array is zero behind the prefix.
blit_prefix :
    (size n : ℕ) (xs : List ℕ)
    → length xs ≡ size
    → n ≤ size
    → drop n xs ≡ replicate (size - n) 0
    → blit (replicate size 0) (take n xs) ≡ xs
blit_prefix size n xs len fits rest =
    ap (◌++◌ (take n xs)) (
      ap (λ k. drop k (replicate size 0)) (omega (arith, length-take n xs))
      ∙ drop-replicate n size 0
      ∙ sym rest)
    ∙ take-append-drop n xs

length-take_payload :
    (f : IoFrame) → IsCanonical f → f.data_len ≡ length (take f.data_len f.payload)
length-take_payload f c = omega (arith, length-take f.data_len f.payload)

-- The two copies that `parse` makes from the bytes behind the command.
pub payload_back :
    (f : IoFrame) (more : List ℕ)
    → IsCanonical f
    → blit (replicate frame_max_data_size 0) (take f.data_len (take f.data_len f.payload ++ more))
      ≡ f.payload
payload_back f more c =
    ap (blit (replicate frame_max_data_size 0))
      (take-append (take f.data_len f.payload) more f.data_len (length-take_payload f c))
    ∙ blit_prefix 23 f.data_len f.payload c.payload_size c.fits c.payload_rest

pub mac_back :
    (f : IoFrame)
    → IsCanonical f
    → blit
        (replicate hmac_size 0)
        (take hmac_size (drop f.data_len (take f.data_len f.payload ++ f.mac)))
      ≡ f.mac
mac_back f c =
    ap (λ m. blit (replicate hmac_size 0) (take hmac_size m))
      (drop-append (take f.data_len f.payload) f.mac f.data_len (length-take_payload f c))
    ∙ ap (blit (replicate hmac_size 0)) (take_all 6 f.mac (omega arith))
    ∙ ap (◌++◌ f.mac) (ap (λ k. drop k (replicate hmac_size 0)) c.mac_size)
    ∙ append_nil f.mac
