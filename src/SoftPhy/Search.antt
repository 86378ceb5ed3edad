-- ===== src/SoftPhy/Search.antt =====
-- components/home_io_control/radio_soft_phy.cpp: what the search for a frame promises of the frame
-- that it reports.
use home_io_control_wio_b2b.Base.{
  ◌⊎◌, ℕ, zero, suc, ◌+◌, ◌-◌, ◌≤◌, ◌<◌, ◌≡◌, refl, ap, subst, min, Bool, true, false, not, ◌&&◌,
  ltb, ltb→lt, ◌==◌, if◌then◌else◌, Bool-cases, Option-cases, Option, none, some, List, length,
  take, drop, arith, inl, inr, bit_or, shl, take-append,
}
use home_io_control_wio_b2b.Frame.{
  IoFrame, blank_frame, parse, byte_at, slice, blit, frame_max_wire_size, frame_min_size,
}
use home_io_control_wio_b2b.Crc.{crc_ccitt}
use home_io_control_wio_b2b.SoftPhy.{
  UartProbeResult, empty_result, decode_uart_probe, is_plausible_uart_frame, is_candidate,
  candidate_loop, start_loop, find_crc_valid_frame, kept, probe_loop, find_uart_probe,
  radio_packet_buffer_size,
}

-- A frame in a decoded stream: it parses, is plausible, and is followed by its checksum.
pub record IsFrameAt (decoded : List ℕ) (start len : ℕ) : Type 0 where
  pub frame : IoFrame
  pub parses : parse (some (slice decoded start len)) blank_frame ≡ (true, frame)
  pub plausible : is_plausible_uart_frame frame len ≡ true
  pub inside : start + len + 2 ≤ length decoded
  pub checksum :
      crc_ccitt (slice decoded start len)
      ≡ bit_or (byte_at decoded (start + len)) (shl (byte_at decoded (start + len + 1)) 8)

guards :
    (parsed plausible : Bool) (n m a b : ℕ)
    → (if not parsed
        then false
        else if not plausible
        then false
        else if ltb n m
        then false
        else a == b)
      ≡ true
    → (parsed ≡ true) × (plausible ≡ true) × (m ≤ n) × (a ≡ b)
guards parsed plausible n m a b h = ground arith

pair_of {ℓ} : {A : Type ℓ} (p : Bool × A) → p.0 ≡ true → p ≡ (true, p.1)
pair_of (b, a) h = ap (λ z. (z, a)) h

candidate-IsFrameAt :
    (decoded : List ℕ) (start len : ℕ)
    → is_candidate decoded start len ≡ true
    → IsFrameAt decoded start len
unfolding is_candidate
candidate-IsFrameAt decoded start len h =
    let (parsed, plausible, inside, checksum) = guards _ _ _ _ _ _ h in
    record {
      frame = (parse (some (slice decoded start len)) blank_frame).1;
      parses = pair_of _ parsed;
      plausible = plausible;
      inside = inside;
      checksum = checksum;
    }

found_here :
    (bound : Bool) (here : Bool) (n len : ℕ) (rest : Option ℕ)
    → (if bound then none else if here then some n else rest) ≡ some len
    → ((here ≡ true) × (n ≡ len)) ⊎ (rest ≡ some len)
found_here bound here n len rest h = ground arith

candidate_loop-IsFrameAt :
    (decoded : List ℕ) (start n len : ℕ)
    → candidate_loop decoded start n ≡ some len
    → IsFrameAt decoded start len
unfolding candidate_loop
candidate_loop-IsFrameAt decoded start zero len h = ground arith
candidate_loop-IsFrameAt decoded start (suc n) len h =
    elim (found_here (ltb (suc n) frame_min_size) (is_candidate decoded start (suc n)) (suc n) len
      (candidate_loop decoded start n) h) [
        | inl (here, e) ↦
            candidate-IsFrameAt decoded start len
              (subst (λ z. is_candidate decoded start z ≡ true) e here)
        | inr e ↦ candidate_loop-IsFrameAt decoded start n len e
      ]

-- The promise of a search result.
abbrev IsFound : List ℕ → ℕ × ℕ → Type 0
IsFound decoded (start, len) = 0 < len → IsFrameAt decoded start len

start_loop-IsFound :
    (left : ℕ) (decoded : List ℕ) (start : ℕ) → IsFound decoded (start_loop left decoded start)
unfolding start_loop
start_loop-IsFound zero decoded start = λ h. absurd (ground arith)
start_loop-IsFound (suc left) decoded start =
    elim (Option-cases
      (candidate_loop decoded start (min (length decoded - start) frame_max_wire_size))) [
        | inl e ↦ rw (e, start_loop) (start_loop-IsFound left decoded (start + 1))
        | inr (len, e) ↦ rw (e, start_loop) (λ h. candidate_loop-IsFrameAt decoded start _ len e)
      ]

-- What `find_crc_valid_frame` reports with a length above zero is a frame of the stream: it parses,
-- is plausible, lies with its checksum inside the stream, and the checksum is right.
pub find_crc_valid_frame-IsFrameAt :
    (decoded : List ℕ)
    → 0 < (find_crc_valid_frame decoded).1
    → IsFrameAt decoded (find_crc_valid_frame decoded).0 (find_crc_valid_frame decoded).1
unfolding find_crc_valid_frame
find_crc_valid_frame-IsFrameAt decoded = start_loop-IsFound (length decoded) decoded 0

-- A result that claims a frame holds the stream of its bit offset, with the frame in it.
pub record IsValidProbe (raw : List ℕ) (r : UartProbeResult) : Type 0 where
  pub aligned : r.bit_offset < 10
  pub stream_len :
      r.decoded_len ≡ length (decode_uart_probe raw r.bit_offset radio_packet_buffer_size)
  pub stream :
      take r.decoded_len r.decoded ≡ decode_uart_probe raw r.bit_offset radio_packet_buffer_size
  pub framed :
      IsFrameAt
        (decode_uart_probe raw r.bit_offset radio_packet_buffer_size)
        r.frame_start
        r.frame_len

take-blit : (dest bytes : List ℕ) → take (length bytes) (blit dest bytes) ≡ bytes
take-blit dest bytes = take-append bytes (drop (length bytes) dest) (length bytes) refl

kept-valid :
    (best : UartProbeResult) (offset : ℕ) (decoded : List ℕ)
    → best.valid ≡ false
    → (kept best offset decoded).valid ≡ false
kept-valid best offset decoded h =
    elim (Bool-cases (ltb best.decoded_len (length decoded) && not best.valid)) [
      | inl e ↦ rw e h
      | inr e ↦ rw e h
    ]

found :
    (raw : List ℕ) (offset : ℕ) (best : UartProbeResult)
    → offset < 10
    → 0 < (find_crc_valid_frame (decode_uart_probe raw offset radio_packet_buffer_size)).1
    → IsValidProbe raw (record {
      valid = true;
      bit_offset = offset;
      decoded_len = length (decode_uart_probe raw offset radio_packet_buffer_size);
      frame_start =
          (find_crc_valid_frame (decode_uart_probe raw offset radio_packet_buffer_size)).0;
      frame_len = (find_crc_valid_frame (decode_uart_probe raw offset radio_packet_buffer_size)).1;
      decoded =
          blit
            (kept best offset (decode_uart_probe raw offset radio_packet_buffer_size)).decoded
            (decode_uart_probe raw offset radio_packet_buffer_size);
    })
found raw offset best h f = record {
  aligned = h;
  stream_len = refl;
  stream =
      take-blit (kept best offset (decode_uart_probe raw offset radio_packet_buffer_size)).decoded
        (decode_uart_probe raw offset radio_packet_buffer_size);
  framed = find_crc_valid_frame-IsFrameAt (decode_uart_probe raw offset radio_packet_buffer_size) f;
}

-- A probe that found no frame so far stays honest.
probe_loop-IsValidProbe :
    (left : ℕ) (raw : List ℕ) (offset : ℕ) (best : UartProbeResult)
    → offset + left ≤ 10
    → best.valid ≡ false
    → (probe_loop left raw offset best).valid ≡ true
    → IsValidProbe raw (probe_loop left raw offset best)
unfolding probe_loop
probe_loop-IsValidProbe zero raw offset best room unfound = ground arith
probe_loop-IsValidProbe (suc left) raw offset best room unfound =
    elim (Bool-cases (length (decode_uart_probe raw offset radio_packet_buffer_size) == 0)) [
      | inl e ↦
          rw (e, probe_loop)
            (probe_loop-IsValidProbe left raw (offset + 1) best (omega arith) unfound)
      | inr e ↦
          elim (Bool-cases (
            ltb 0
              (find_crc_valid_frame (decode_uart_probe raw offset radio_packet_buffer_size)).1)) [
                | inl f ↦
                    rw (e, f, probe_loop) (λ h. found raw offset best (omega arith) (ltb→lt _ _ f))
                | inr f ↦
                    rw (e, f, probe_loop)
                      (probe_loop-IsValidProbe left raw (offset + 1)
                        (kept best offset (decode_uart_probe raw offset radio_packet_buffer_size))
                        (omega arith)
                        (kept-valid best offset
                          (decode_uart_probe raw offset radio_packet_buffer_size) unfound))
              ]
    ]

-- A result of `find_uart_probe` that is marked valid names a bit offset below ten, holds the stream
-- that decoding from there gives, and locates in it a frame that parses, is plausible and is followed
-- by its right checksum.
pub find_uart_probe-IsValidProbe :
    (raw : List ℕ) → (find_uart_probe raw).valid ≡ true → IsValidProbe raw (find_uart_probe raw)
unfolding find_uart_probe
find_uart_probe-IsValidProbe raw = probe_loop-IsValidProbe 10 raw 0 empty_result (omega arith) refl
