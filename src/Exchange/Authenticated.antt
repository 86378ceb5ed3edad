-- ===== src/Exchange/Authenticated.antt =====
-- components/home_io_control/exchange_engine.cpp: what makes `authenticate_request` trust a device.
use home_io_control_wio_b2b.Base.{
  ℕ, ◌≡◌, refl, ◌∙◌, Bool, true, false, Bool-cases, inl, inr, ◌⊎◌, List, [], ◌∷◌, some, take,
}
use home_io_control_wio_b2b.Frame.{IoFrame, NodeId, blank_frame, serialize}
use home_io_control_wio_b2b.Crypto.Auth.{same_mac, diff_loop, verify_hmac}
use home_io_control_wio_b2b.Commands.Pairing.{
  create_random_challenge_req, create_challenge_resp_device_role, transcript,
}
use home_io_control_wio_b2b.Commands.Shared.{
  create_hmac-length, create_challenge_resp_framed-IsProof,
}
use home_io_control_wio_b2b.Exchange.{
  wait_challenge_response, RadioRxPacket, Radio, Setup, Engine, record_debug, with_world,
}
use home_io_control_wio_b2b.Exchange.Log.{IsTransmitted, transmit_frame-IsTransmitted}
use home_io_control_wio_b2b.Exchange.Transmit.{transmit_frame}
use home_io_control_wio_b2b.Exchange.Inbound.{
  short_preamble, proves_request, auth_stage, auth_verdict, auth_heard, auth_sent,
  authenticate_request,
}

-- The comparison reads six bytes.
same_mac-take : (a b : List ℕ) → same_mac a b ≡ same_mac (take 6 a) b
unfolding same_mac diff_loop
same_mac-take [] b = refl
same_mac-take (a0 ∷ []) b = refl
same_mac-take (a0 ∷ a1 ∷ []) b = refl
same_mac-take (a0 ∷ a1 ∷ a2 ∷ []) b = refl
same_mac-take (a0 ∷ a1 ∷ a2 ∷ a3 ∷ []) b = refl
same_mac-take (a0 ∷ a1 ∷ a2 ∷ a3 ∷ a4 ∷ []) b = refl
same_mac-take (a0 ∷ a1 ∷ a2 ∷ a3 ∷ a4 ∷ a5 ∷ rest) b = refl

verify_hmac-take :
    (span a challenge key : List ℕ)
    → verify_hmac span (take 6 a) challenge key ≡ true
    → verify_hmac span a challenge key ≡ true
unfolding verify_hmac
verify_hmac-take span a challenge key h =
    let (hmac, made, _, _) = create_hmac-length span challenge key in
    rw (made, verify_hmac) (same_mac-take a hmac ∙ (rw (made, verify_hmac) at h))

-- A device that holds the system key passes: whatever it said and whatever the challenge was, the bytes
-- of the response that it builds for its own frame are accepted by the hub as the proof of that frame.
pub proves_request-device_role :
    (hub device : NodeId) (challenge : List ℕ) (request : IoFrame) (key : List ℕ)
    → proves_request request challenge key
        (serialize (create_challenge_resp_device_role hub device challenge request key).1 (some 32))
      ≡ true
unfolding proves_request create_challenge_resp_device_role
proves_request-device_role hub device challenge request key =
    let (sent, accepted) =
      create_challenge_resp_framed-IsProof hub device challenge request key true false in
    rw (sent.8 blank_frame, sent.7, proves_request)
      (verify_hmac-take (transcript request) _ challenge key accepted)

-- Trusted, on the grounds of the packet that the radio delivered to the wait that began in the world
-- which the transmission of the challenge left; or refused.
abbrev pub IsAuthenticated :
    {W : Type 0} → Radio W → Setup → (ℕ → ℕ) → IoFrame → ℕ → Engine W → Bool × Engine W → Type 0
IsAuthenticated {W} radio setup random request freq e (true, e') =
    (before : Engine W) × (sent : Bool × Engine W) × (heard : Bool × RadioRxPacket × W)
    × (before.sent ≡ e.sent)
    × (before.world ≡ e.world)
    × (sent
        ≡ transmit_frame radio setup.tuning
            (create_random_challenge_req random request.src setup.node_id).1 freq short_preamble
            before)
    × (sent.0 ≡ true)
    × (sent.1.sent ≡ (create_random_challenge_req random request.src setup.node_id).1 ∷ e.sent)
    × (heard ≡ radio.wait_for_packet setup.tuning.exchange_response_wait_ms sent.1.world)
    × (heard.0 ≡ true)
    × (proves_request request
          (create_random_challenge_req random request.src setup.node_id).1.payload setup.system_key
          heard.1.bytes
        ≡ true)
    × (e'.sent ≡ (create_random_challenge_req random request.src setup.node_id).1 ∷ e.sent)
    × (e'.world ≡ heard.2)
IsAuthenticated radio setup random request freq e (false, e') =
    (e'.sent ≡ e.sent)
    ⊎ (e'.sent ≡ (create_random_challenge_req random request.src setup.node_id).1 ∷ e.sent)

module _ {W : Type 0} (radio : Radio W) (setup : Setup) (random : ℕ → ℕ) (request : IoFrame)
    (freq : ℕ) (e before : Engine W) where
  challenge : Bool × IoFrame
  challenge = create_random_challenge_req random request.src setup.node_id

  transmission : Bool × Engine W
  unfolding challenge
  transmission = transmit_frame radio setup.tuning challenge.1 freq short_preamble before

  judged :
      (sent : Bool × Engine W) (e1 : Engine W) (heard : Bool × RadioRxPacket × W) (b : Bool)
      → before.sent ≡ e.sent
      → before.world ≡ e.world
      → sent ≡ transmission
      → sent.0 ≡ true
      → sent.1.sent ≡ challenge.1 ∷ e.sent
      → e1.sent ≡ challenge.1 ∷ e.sent
      → e1.world ≡ heard.2
      → heard ≡ radio.wait_for_packet setup.tuning.exchange_response_wait_ms sent.1.world
      → heard.0 ≡ true
      → proves_request request challenge.1.payload setup.system_key heard.1.bytes ≡ b
      → IsAuthenticated radio setup random request freq e (auth_verdict radio setup random b e1)
  unfolding challenge transmission record_debug
  judged sent e1 heard true start world is went added log at from delivered proves =
      (before, sent, heard, start, world, is, went, added, from, delivered, proves, log, at)
  judged sent e1 heard false start world is went added log at from delivered proves = inr log

  heard-IsAuthenticated :
      (e1 : Engine W) (heard : Bool × RadioRxPacket × W)
      → before.sent ≡ e.sent
      → before.world ≡ e.world
      → (true, e1) ≡ transmission
      → e1.sent ≡ challenge.1 ∷ e.sent
      → heard ≡ radio.wait_for_packet setup.tuning.exchange_response_wait_ms e1.world
      → IsAuthenticated radio setup random request freq e (
          auth_heard radio setup random request challenge.1
            (auth_stage radio setup random wait_challenge_response e1)
            heard)
  unfolding challenge transmission record_debug
  heard-IsAuthenticated e1 (false, packet, w') start world is added from = inr added
  heard-IsAuthenticated e1 (true, packet, w') start world is added from =
      judged (true, e1) (with_world (auth_stage radio setup random wait_challenge_response e1) w')
        (true, packet, w') _ start world is refl added added refl from refl refl

  sent-IsAuthenticated :
      (s : Bool × Engine W)
      → before.sent ≡ e.sent
      → before.world ≡ e.world
      → s ≡ transmission
      → IsTransmitted challenge.1 e s
      → IsAuthenticated radio setup random request freq e
          (auth_sent radio setup random request challenge.1 s)
  unfolding challenge transmission record_debug
  sent-IsAuthenticated (false, e1) start world is same = inl same
  sent-IsAuthenticated (true, e1) start world is added =
      heard-IsAuthenticated e1 _ start world is added refl

-- The hub trusts a frame of a device only if its own random challenge to that device was transmitted,
-- and the wait that began where this transmission ended delivered a packet that proves the frame under
-- the system key; nothing was transmitted or waited for in between or after. Otherwise it refuses, and
-- has transmitted the challenge at most.
pub authenticate_request-IsAuthenticated :
    {W : Type 0} (radio : Radio W) (setup : Setup) (random : ℕ → ℕ) (request : IoFrame) (freq : ℕ)
    (e : Engine W)
    → IsAuthenticated radio setup random request freq e
        (authenticate_request radio setup random request freq e)
unfolding authenticate_request challenge transmission record_debug
authenticate_request-IsAuthenticated radio setup random request freq e =
    elim (Bool-cases (create_random_challenge_req random request.src setup.node_id).0) [
      | inr built ↦ rw (built, authenticate_request) (inl refl)
      | inl built ↦
          rw (built, authenticate_request)
            (sent-IsAuthenticated radio setup random request freq e _ _ refl refl refl
              (transmit_frame-IsTransmitted radio setup.tuning _ freq short_preamble _))
    ]
