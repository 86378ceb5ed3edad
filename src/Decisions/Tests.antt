-- ===== src/Decisions/Tests.antt =====
-- Runs of the decisions on concrete frames and times.
use home_io_control_wio_b2b.Base.{◌≡◌, refl, true}
use home_io_control_wio_b2b.Frame.{IoFrame, NodeId, blank_frame}
use home_io_control_wio_b2b.Decisions.{
  OneWayDedupState, defer_background_poll_for_1w_activity, accept_challenge,
  classify_pairing_key_challenge, frame_matches_nodes,
}

abbrev pressed : OneWayDedupState
pressed = record {
  src_id = "123ABC";
  cmd = 0;
  has_intent = true;
  main0 = 0xd2;
  main1 = 0;
  timestamp = 4294967290;
}

abbrev repeated : OneWayDedupState
repeated = record pressed { timestamp = 30 }

deferred : defer_background_poll_for_1w_activity true 1000 1500 1900 700 5000 ≡ true
unfolding defer_background_poll_for_1w_activity
deferred = refl

abbrev hub : NodeId
hub = record { b0 = 1; b1 = 2; b2 = 3 }

abbrev device : NodeId
device = record { b0 = 4; b1 = 5; b2 = 6 }

abbrev sent : IoFrame
sent = record blank_frame { dst = device; src = hub; cmd = 0x31 }

abbrev answered : IoFrame
answered = record blank_frame { dst = hub; src = device; cmd = 0x3c; data_len = 6 }

accepted : classify_pairing_key_challenge answered device hub ≡ accept_challenge
unfolding classify_pairing_key_challenge frame_matches_nodes
accepted = refl
