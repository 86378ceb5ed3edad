-- ===== src/Decisions/Exchange.antt =====
-- components/home_io_control/hub_decisions.h: which frames answer a request.
use home_io_control_wio_b2b.Base.{◌≡◌, arith}
use home_io_control_wio_b2b.Frame.{IoFrame}
use home_io_control_wio_b2b.Decisions.{
  require_auth, accept_final, accept_challenge, frame_matches_exchange_endpoints,
  classify_exchange_first_response, classify_exchange_final_response,
  classify_pairing_key_challenge,
}

-- A key challenge that pairing accepts is one that an exchange of the controller with the device
-- answers by authentication, and as a final response it is accepted.
pub key_challenge-require_auth :
    (request candidate : IoFrame)
    → classify_pairing_key_challenge candidate request.dst request.src ≡ accept_challenge
    → (classify_exchange_first_response request candidate ≡ require_auth)
      × (classify_exchange_final_response request candidate ≡ accept_final)
unfolding classify_pairing_key_challenge classify_exchange_first_response
    classify_exchange_final_response frame_matches_exchange_endpoints
key_challenge-require_auth request candidate h = ground arith
