-- ===== src/Exchange/Transmit.antt =====
-- components/home_io_control/exchange_engine.cpp: hopping between the three channels, and the
-- transmission that listens before it talks.
use home_io_control_wio_b2b.Base.{
  ℕ, zero, suc, ◌+◌, Bool, true, false, not, ◌==◌, ltb, leb, if◌then◌else◌, some, ◌∷◌, length,
  bit_and, u32, sub32,
}
use home_io_control_wio_b2b.Frame.{
  IoFrame, serialize, is_start, ctrl1_low_power, frame_max_wire_size,
}
use home_io_control_wio_b2b.Exchange.{
  Engine, Radio, TuningConfig, with_world, telemetry_call, record_lbt_defer, record_tx,
}

abbrev pub freq_ch1 : ℕ
freq_ch1 = 868250000

abbrev pub freq_ch2 : ℕ
freq_ch2 = 868950000

abbrev pub freq_ch3 : ℕ
freq_ch3 = 869850000

abbrev pub hop_time_us : ℕ
hop_time_us = 2700

abbrev pub long_preamble : ℕ
long_preamble = 1024

abbrev pub lbt_retry_delay_ms : ℕ
lbt_retry_delay_ms = 5

-- The switch of the rotation.
unfoldable pub rotate : ℕ → ℕ
rotate freq = if freq == freq_ch1 then freq_ch2 else if freq == freq_ch3 then freq_ch1 else freq_ch3

-- The `do ... while (next == skip_freq)`, with the fuel of its further rounds.
unfoldable pub hop_loop : ℕ → ℕ → ℕ → ℕ
hop_loop zero skip freq = rotate freq
hop_loop (suc fuel) skip freq = elim (rotate freq == skip) [
  | true ↦ hop_loop fuel skip (rotate freq)
  | false ↦ rotate freq
]

module _ {W : Type 0} (radio : Radio W) where
  unfoldable pub reset_hop_timestamp : Engine W → Engine W
  reset_hop_timestamp e =
      let now = radio.micros e.world in record e { last_hop_us = now.0; world = now.1 }

  unfoldable pub hop_frequency : ℕ → Engine W → Engine W
  hop_frequency skip_freq e =
      let next = hop_loop 1 skip_freq (radio.get_current_freq e.world) in
      let now = radio.micros (radio.change_frequency next e.world) in
      record e { last_hop_us = now.0; world = now.1 }

  unfoldable pub maybe_hop : Engine W → Engine W
  maybe_hop e =
      let now = radio.micros e.world in
      let receiving = radio.reception_in_progress now.1 in
      if leb (sub32 now.0 e.last_hop_us) hop_time_us
      then with_world e now.1
      else if receiving.0
      then with_world e receiving.1
      else hop_frequency 0 (with_world e receiving.1)

  module _ (tuning : TuningConfig) where
    -- One busy reading.
    abbrev pub lbt_deferred : ℕ → Engine W → Engine W
    lbt_deferred rssi e =
        let noted = telemetry_call (record_lbt_defer rssi) (record e {
          counters = record e.counters { lbt_retries = u32 (e.counters.lbt_retries + 1) };
        }) in
        with_world noted (radio.delay lbt_retry_delay_ms noted.world)

    unfoldable pub lbt_loop : ℕ → Engine W → Engine W
    lbt_loop zero e = e
    lbt_loop (suc left) e =
        let reading = radio.read_rssi e.world in
        elim (ltb reading.0 tuning.lbt_rssi_threshold_dbm) [
          | true ↦ with_world e reading.1
          | false ↦ lbt_loop left (lbt_deferred reading.0 (with_world e reading.1))
        ]

    -- The end of `transmit_frame`, by the answer of the radio.
    abbrev pub transmitted : IoFrame → Engine W → Bool × W → Bool × Engine W
    transmitted frame e (false, w) = (false, with_world e w)
    transmitted frame e (true, w) =
        (true, telemetry_call (record_tx frame.cmd) (record e { world = w; sent = frame ∷ e.sent }))

    unfoldable pub transmit_frame : IoFrame → ℕ → ℕ → Engine W → Bool × Engine W
    transmit_frame frame freq preamble e =
        let bytes = serialize frame (some frame_max_wire_size) in
        let clear = lbt_loop tuning.lbt_max_retries e in
        if length bytes == 0
        then (false, e)
        else transmitted frame clear (radio.send_packet bytes freq preamble clear.world)

    unfoldable pub request_preamble_for : IoFrame → ℕ
    request_preamble_for request =
        if not (is_start request)
        then radio.response_preamble
        else if not (bit_and request.ctrl1 ctrl1_low_power == 0)
        then long_preamble
        else tuning.normal_start_preamble
