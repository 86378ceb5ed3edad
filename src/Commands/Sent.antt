-- ===== src/Commands/Sent.antt =====
-- components/home_io_control/proto_commands.cpp: every two-way request to a device goes on air as a
-- well-formed frame.
use home_io_control_wio_b2b.Commands.Requests.{
  request_frame, create_no_payload_request, create_execute_position, create_execute_command,
  create_force_open, create_private_function, create_get_status, create_get_name,
  create_general_info3, create_get_info1, create_get_info2, create_set_name, create_identify,
  create_execute_tilt, create_execute_position_and_tilt, create_get_status_extended,
  create_get_status_tilt, create_private2_read,
}
use home_io_control_wio_b2b.Base.{
  ℕ, ◌≡◌, ◌≤◌, refl, subst, sym, Bool, true, false, ltb, if◌then◌else◌, none, some, List, length,
  [], Bool-cases, inl, inr, arith, ◌⊎◌,
}
use home_io_control_wio_b2b.Frame.{IoFrame, NodeId, is_start, is_end, set_cmd, serialize, parse}
use home_io_control_wio_b2b.Frame.Layout.{IsCanonical}
use home_io_control_wio_b2b.Frame.Build.{
  addressed, IsBuilt, set_cmd-IsBuilt, set_cmd_header, set_cmd-none,
}
use home_io_control_wio_b2b.OperationQueue.{CoverCommand, stop, favorite, vent, force_open}

-- A builder succeeded with a well-formed two-way frame: its flags, its addresses and its command are
-- these, and whatever frame receives what `serialize` writes is this frame.
abbrev pub IsSent : Bool → Bool → Bool → NodeId → NodeId → ℕ → Bool × IoFrame → Type 0
IsSent start end low_power own dst cmd (accepted, f) =
    (accepted ≡ true)
    × IsCanonical f
    × (is_start f ≡ start)
    × (is_end f ≡ end)
    × (f.ctrl1 ≡ (if low_power then 0x20 else 0))
    × (f.dst ≡ dst)
    × (f.src ≡ own)
    × (f.cmd ≡ cmd)
    × ((g : IoFrame) → parse (some (serialize f (some 32))) g ≡ (true, f))

pub set_cmd-IsSent :
    (is_2w start end low_power : Bool) (own dst : NodeId) (cmd : ℕ) (params : List ℕ)
    → length params ≤ 23
    → IsSent start end low_power own dst cmd
        (set_cmd (addressed is_2w start end low_power dst own) cmd (some params) (length params))
set_cmd-IsSent is_2w start end low_power own dst cmd params h =
    let header = set_cmd_header is_2w start end low_power dst own cmd params h in
    let one = built (addressed is_2w start end low_power dst own) in
    (one.0, one.1, one.3, one.4, header.3, header.1, header.2, header.0, λ g. (built g).5)
  where
    built :
        (g : IoFrame)
        → IsBuilt start end params g (
            set_cmd (addressed is_2w start end low_power dst own) cmd (some params) (length params))
    built g = set_cmd-IsBuilt is_2w start end low_power dst own cmd params g h

pub bare-IsSent :
    (is_2w start end low_power : Bool) (own dst : NodeId) (cmd : ℕ)
    → IsSent start end low_power own dst cmd
        (set_cmd (addressed is_2w start end low_power dst own) cmd none 0)
bare-IsSent is_2w start end low_power own dst cmd =
    subst (IsSent start end low_power own dst cmd) (sym (set_cmd-none _ cmd))
      (set_cmd-IsSent is_2w start end low_power own dst cmd [] (omega arith))

-- The requests that a caller can ask for.
pub data Request : Type 0 where
  position tilt : ℕ → Request
  silent_position : ℕ → Request
  position_and_tilt : ℕ → ℕ → Request
  command : CoverCommand → Bool → Request
  open_by_force : ℕ → Request
  private_function : ℕ → ℕ → Request
  extended_status : ℕ → ℕ → ℕ → Request
  private2 : ℕ → Bool → Request
  rename : (payload : List ℕ) → length payload ≡ 16 → Request
  status tilt_status get_name general_info3 info1 info2 identify : Request

abbrev pub request : Request → IoFrame → NodeId → NodeId → Bool → Bool × IoFrame
request (position p) f own dst low_power = create_execute_position f own dst low_power p false
request (silent_position p) f own dst low_power = create_execute_position f own dst low_power p true
request (tilt t) f own dst low_power = create_execute_tilt own dst low_power t
request (position_and_tilt p t) f own dst low_power =
    create_execute_position_and_tilt f own dst low_power p t
request (command c silent) f own dst low_power = create_execute_command f own dst low_power c silent
request (open_by_force p) f own dst low_power = create_force_open own dst low_power p
request (private_function i j) f own dst low_power = create_private_function own dst low_power i j
request (extended_status s b i) f own dst low_power =
    create_get_status_extended own dst low_power s b i
request (private2 m long_form) f own dst low_power =
    create_private2_read own dst m long_form low_power
request (rename payload h) f own dst low_power = create_set_name own dst low_power payload
request status f own dst low_power = create_get_status own dst low_power
request tilt_status f own dst low_power = create_get_status_tilt own dst low_power
request get_name f own dst low_power = create_get_name own dst low_power
request general_info3 f own dst low_power = create_general_info3 own dst low_power
request info1 f own dst low_power = create_get_info1 own dst low_power
request info2 f own dst low_power = create_get_info2 own dst low_power
request identify f own dst low_power = create_identify own dst low_power

-- The command byte of a request, and whether it cannot be encoded.
abbrev pub command_of : Request → ℕ
command_of (position p) = 0x00
command_of (silent_position p) = 0x00
command_of (tilt t) = 0x00
command_of (position_and_tilt p t) = 0x00
command_of (command c silent) = 0x00
command_of (open_by_force p) = 0x00
command_of (private_function i j) = 0x03
command_of (extended_status s b i) = 0x03
command_of (private2 m long_form) = 0x0c
command_of (rename payload h) = 0x52
command_of status = 0x03
command_of tilt_status = 0x03
command_of get_name = 0x50
command_of general_info3 = 0x58
command_of info1 = 0x54
command_of info2 = 0x56
command_of identify = 0x1e

abbrev pub is_refused : Request → Bool
is_refused (position p) = ltb 100 p
is_refused (silent_position p) = ltb 100 p
is_refused (tilt t) = false
is_refused (position_and_tilt p t) = ltb 100 p
is_refused (command stop silent) = false
is_refused (command favorite silent) = false
is_refused (command vent silent) = false
is_refused (command force_open silent) = true
is_refused (open_by_force p) = false
is_refused (private_function i j) = false
is_refused (extended_status s b i) = false
is_refused (private2 m long_form) = false
is_refused (rename payload h) = false
is_refused status = false
is_refused tilt_status = false
is_refused get_name = false
is_refused general_info3 = false
is_refused info1 = false
is_refused info2 = false
is_refused identify = false

-- Refused without a change, or sent.
abbrev pub IsAnswer : Request → IoFrame → NodeId → NodeId → Bool → Bool × IoFrame → Type 0
IsAnswer r f own dst low_power answer =
    ((is_refused r ≡ true) × (answer ≡ (false, f)))
    ⊎ ((is_refused r ≡ false) × IsSent true false low_power own dst (command_of r) answer)

module _ (f : IoFrame) (own dst : NodeId) (low_power : Bool) where
  sent :
      (cmd : ℕ) (params : List ℕ)
      → length params ≤ 23
      → IsSent true false low_power own dst cmd
          (set_cmd (request_frame own dst low_power) cmd (some params) (length params))
  sent cmd params h = set_cmd-IsSent true true false low_power own dst cmd params h

  bare :
      (cmd : ℕ)
      → IsSent true false low_power own dst cmd
          (set_cmd (request_frame own dst low_power) cmd none 0)
  bare cmd = bare-IsSent true true false low_power own dst cmd

  -- A request with a position above 100 per cent, or a forced opening asked for as a plain command, is
  -- refused and the caller's frame is untouched; every other request to a device goes on air as a
  -- well-formed frame with START set and END clear, with the addresses and the low-power flag that were
  -- asked for, and the receiver parses it back as it is.
  pub request-IsAnswer :
      (r : Request) → IsAnswer r f own dst low_power (request r f own dst low_power)
  unfolding create_execute_position create_execute_tilt create_execute_position_and_tilt
      create_execute_command create_force_open create_private_function create_get_status_extended
      create_private2_read create_set_name create_get_status create_get_status_tilt create_get_name
      create_general_info3 create_get_info1 create_get_info2 create_identify
      create_no_payload_request
  request-IsAnswer (position p) = elim (Bool-cases (ltb 100 p)) [
    | inl e ↦ inl (e, rw e refl)
    | inr e ↦ inr (e, rw e (sent 0x00 _ (omega arith)))
  ]
  request-IsAnswer (silent_position p) = elim (Bool-cases (ltb 100 p)) [
    | inl e ↦ inl (e, rw e refl)
    | inr e ↦ inr (e, rw e (sent 0x00 _ (omega arith)))
  ]
  request-IsAnswer (tilt t) = inr (refl, sent 0x00 _ (omega arith))
  request-IsAnswer (position_and_tilt p t) = elim (Bool-cases (ltb 100 p)) [
    | inl e ↦ inl (e, rw e refl)
    | inr e ↦ inr (e, rw e (sent 0x00 _ (omega arith)))
  ]
  request-IsAnswer (command stop silent) = inr (refl, sent 0x00 _ (omega arith))
  request-IsAnswer (command favorite true) = inr (refl, sent 0x00 _ (omega arith))
  request-IsAnswer (command favorite false) = inr (refl, sent 0x00 _ (omega arith))
  request-IsAnswer (command vent silent) = inr (refl, sent 0x00 _ (omega arith))
  request-IsAnswer (command force_open silent) = inl (refl, refl)
  request-IsAnswer (open_by_force p) = inr (refl, sent 0x00 _ (omega arith))
  request-IsAnswer (private_function i j) = inr (refl, sent 0x03 _ (omega arith))
  request-IsAnswer (extended_status s b i) = inr (refl, sent 0x03 _ (omega arith))
  request-IsAnswer (private2 m true) = inr (refl, sent 0x0c _ (omega arith))
  request-IsAnswer (private2 m false) = inr (refl, sent 0x0c _ (omega arith))
  request-IsAnswer (rename payload h) = inr (refl, rw (sym h) (sent 0x52 payload (omega arith)))
  request-IsAnswer status = inr (refl, sent 0x03 _ (omega arith))
  request-IsAnswer tilt_status = inr (refl, sent 0x03 _ (omega arith))
  request-IsAnswer get_name = inr (refl, bare 0x50)
  request-IsAnswer general_info3 = inr (refl, bare 0x58)
  request-IsAnswer info1 = inr (refl, bare 0x54)
  request-IsAnswer info2 = inr (refl, bare 0x56)
  request-IsAnswer identify = inr (refl, sent 0x1e _ (omega arith))
