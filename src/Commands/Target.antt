-- ===== src/Commands/Target.antt =====
-- components/home_io_control/proto_commands.cpp against proto_codecs.cpp: what a one-way execute frame
-- says to whoever overhears it.
use home_io_control_wio_b2b.Base.{
  ℕ, ◌≡◌, ◌≤◌, ◌<◌, ◌*◌, ◌==◌, refl, sym, Bool, true, false, ltb, if◌then◌else◌, Option, none, some,
  List, length, ◌∷◌, ◌++◌, take, Bool-cases, inl, inr, arith, shr, u8, bit_and, ◌⊎◌, take-append,
}
use home_io_control_wio_b2b.Frame.{IoFrame, NodeId, set_cmd, slice, parse, serialize}
use home_io_control_wio_b2b.Frame.Build.{addressed, IsBuilt, set_cmd-IsBuilt, set_cmd_header}
use home_io_control_wio_b2b.Crypto.Auth.{create_1w_hmac}
use home_io_control_wio_b2b.KeyAdoption.Announce.{create_1w_hmac-length}
use home_io_control_wio_b2b.Codecs.{
  Intent, stop, favorite, vent, oneway_intent_to_target, encode_broadcast_address,
  decode_1w_main_intent,
}
use home_io_control_wio_b2b.Codecs.Address.{broadcast_target_type-encode}
use home_io_control_wio_b2b.OperationQueue.{
  CoverCommand, stop as cover_stop, favorite as cover_favorite, vent as cover_vent,
  force_open as cover_force_open,
}
use home_io_control_wio_b2b.OneWayFrame.{OneWayFrameInfo, decode_1w_frame}
use home_io_control_wio_b2b.Commands.OneWay.{
  create_1w_execute_position, create_1w_execute_command, build_1w_execute, init_1w_broadcast_frame,
  sequence_bytes, execute_params,
}

-- What a decoded frame says.
abbrev pub Says : NodeId → ℕ → ℕ → ℕ → ℕ → OneWayFrameInfo → Type 0
Says src target_type acei main0 main1 info =
    (info.src ≡ src)
    × (info.target_type ≡ target_type)
    × (info.cmd ≡ 0x00)
    × (info.has_intent ≡ true)
    × (info.originator ≡ 0x01)
    × (info.acei_level ≡ shr (bit_and acei 0xe0) 5)
    × (info.main0 ≡ main0)
    × (info.main1 ≡ main1)
    × (info.intent ≡ some (decode_1w_main_intent main0 main1))

-- The authenticator in the payload is that of the command and of the parameters in front of the
-- sequence, which follows high byte first.
abbrev pub IsSigned : ℕ → List ℕ → IoFrame → Type 0
IsSigned sequence key f =
    (create_1w_hmac (f.cmd ∷ take 6 f.payload) sequence key ≡ some (slice f.payload 8 6))
    × (slice f.payload 6 2 ≡ sequence_bytes sequence)
    × (f.data_len ≡ 14)

-- The frame that is built, as its listeners see it.
abbrev pub IsExecuted : NodeId → ℕ → ℕ → ℕ → ℕ → List ℕ → ℕ → Bool × IoFrame → Type 0
IsExecuted src target_type main0 main1 sequence key acei (accepted, f) =
    (accepted ≡ true)
    × Says src target_type acei main0 main1 (decode_1w_frame f)
    × IsSigned sequence key f
    × ((g : IoFrame) → parse (some (serialize f (some 32))) g ≡ (true, f))

module _ (src : NodeId) (target_type main0 main1 sequence acei : ℕ) (mac : List ℕ)
    (six : length mac ≡ 6) where
  execute_payload : List ℕ
  execute_payload = execute_params acei main0 main1 ++ sequence_bytes sequence ++ mac

  executed : Bool × IoFrame
  executed =
      set_cmd (addressed false true true false (encode_broadcast_address target_type) src) 0x00
        (some execute_payload) (length execute_payload)

  execute_size : length execute_payload ≡ 14
  unfolding execute_payload
  execute_size = omega (arith, six)

  executed-Says :
      target_type < 25 → Says src target_type acei main0 main1 (decode_1w_frame executed.1)
  unfolding executed execute_payload decode_1w_frame
  executed-Says range =
      let h =
        set_cmd_header false true true false (encode_broadcast_address target_type) src 0x00
          execute_payload (omega (arith, execute_size)) in
      rw (h.0, h.1, h.2, h.4, h.5, execute_size, broadcast_target_type-encode target_type range)
        (refl, refl, refl, refl, refl, refl, refl, refl, refl)

  six_bytes : (rest : List ℕ) → take 6 (mac ++ rest) ≡ mac
  six_bytes rest = take-append mac rest 6 (sym six)

  executed-IsSigned :
      (key : List ℕ)
      → create_1w_hmac (0x00 ∷ execute_params acei main0 main1) sequence key ≡ some mac
      → IsSigned sequence key executed.1
  unfolding executed execute_payload
  executed-IsSigned key made =
      let h =
        set_cmd_header false true true false (encode_broadcast_address target_type) src 0x00
          execute_payload (omega (arith, execute_size)) in
      rw (h.0, h.4, h.5, execute_size, made, six_bytes) (refl, refl, refl)

  executed-IsExecuted :
      (key : List ℕ)
      → target_type < 25
      → create_1w_hmac (0x00 ∷ execute_params acei main0 main1) sequence key ≡ some mac
      → IsExecuted src target_type main0 main1 sequence key acei executed
  unfolding executed
  executed-IsExecuted key range made =
      ((built executed.1).0, executed-Says range, executed-IsSigned key made, λ g. (built g).5)
    where
      built : (g : IoFrame) → IsBuilt true true execute_payload g executed
      built g =
          set_cmd-IsBuilt false true true false (encode_broadcast_address target_type) src 0x00
            execute_payload g (omega (arith, execute_size))

build_1w_execute-IsExecuted :
    (f : IoFrame) (src : NodeId) (target_type main0 main1 sequence : ℕ) (key : List ℕ) (acei : ℕ)
    (broadcast_all : Bool)
    → target_type < 25
    → IsExecuted src
        (if broadcast_all then 0 else target_type)
        main0
        main1
        sequence
        key
        acei
        (build_1w_execute f src target_type main0 main1 sequence key acei broadcast_all)
unfolding build_1w_execute init_1w_broadcast_frame set_cmd executed execute_payload
build_1w_execute-IsExecuted f src target_type main0 main1 sequence key acei true range =
    let (mac, made, six) =
      create_1w_hmac-length (0x00 ∷ execute_params acei main0 main1) sequence key in
    rw (made, build_1w_execute)
      (executed-IsExecuted src 0 main0 main1 sequence acei mac six key (omega arith) made)
build_1w_execute-IsExecuted f src target_type main0 main1 sequence key acei false range =
    let (mac, made, six) =
      create_1w_hmac-length (0x00 ∷ execute_params acei main0 main1) sequence key in
    rw (made, build_1w_execute)
      (executed-IsExecuted src target_type main0 main1 sequence acei mac six key range made)

-- A position of at most 100 per cent, or none: then the caller's frame is untouched.
abbrev pub IsPositionAnswer : IoFrame → NodeId → ℕ → ℕ → ℕ → List ℕ → ℕ → Bool × IoFrame → Type 0
IsPositionAnswer f src target_type position sequence key acei answer =
    ((100 < position) × (answer ≡ (false, f)))
    ⊎ ((position ≤ 100)
        × IsExecuted src target_type (2 * position) 0 sequence key acei answer
        × (oneway_intent_to_target (2 * position) 0
            ≡ (if position == 50 then none else some position)))

wire_target :
    (p : ℕ) → p ≤ 100 → oneway_intent_to_target (2 * p) 0 ≡ (if p == 50 then none else some p)
unfolding oneway_intent_to_target
wire_target p h = ground arith

-- A one-way position above 100 per cent is refused and the caller's frame is untouched. Any other is
-- built: it is parsed back as sent, carries the sequence and the authenticator of its command and
-- parameters, and is decoded to its sender, device type, originator and level, with the position as
-- target, except that 50 per cent is read as no position.
pub create_1w_execute_position-IsPositionAnswer :
    (f : IoFrame) (src : NodeId) (target_type position sequence : ℕ) (key : List ℕ) (acei : ℕ)
    (broadcast_all : Bool)
    → target_type < 25
    → IsPositionAnswer f src
        (if broadcast_all then 0 else target_type)
        position
        sequence
        key
        acei
        (create_1w_execute_position f src target_type position sequence key acei broadcast_all)
unfolding create_1w_execute_position
create_1w_execute_position-IsPositionAnswer f src target_type position sequence key acei
      broadcast_all range =
    elim (Bool-cases (ltb 100 position)) [
      | inl e ↦ inl (ground arith, rw e refl)
      | inr e ↦
          (let small : position ≤ 100 = ground arith in
            let exact : u8 (2 * position) ≡ 2 * position = omega arith in
            inr (
              small,
              rw (e, exact)
                  (build_1w_execute-IsExecuted f src target_type (2 * position) 0 sequence key acei
                    broadcast_all range),
              wire_target position small,
            ))
    ]

-- The intent that names a command; there is none for the forced opening.
abbrev pub intent_of : CoverCommand → Option Intent
intent_of cover_stop = some stop
intent_of cover_favorite = some favorite
intent_of cover_vent = some vent
intent_of cover_force_open = none

-- Refused without a change, or overheard as the command that was asked for.
abbrev pub IsCommandAnswer :
    IoFrame → NodeId → ℕ → CoverCommand → ℕ → List ℕ → ℕ → Bool × IoFrame → Type 0
IsCommandAnswer f src target_type cmd sequence key acei answer =
    ((intent_of cmd ≡ none) × (answer ≡ (false, f)))
    ⊎ ((main0 : ℕ) × (main1 : ℕ) × (intent_of cmd ≡ some (decode_1w_main_intent main0 main1))
        × IsExecuted src target_type main0 main1 sequence key acei answer)

-- The forced opening is refused as a one-way command and the caller's frame is untouched; any other
-- command is built, signed, parsed back as sent, and decoded to its sender, device type, originator
-- and level, with the intent that names it.
pub create_1w_execute_command-IsCommandAnswer :
    (f : IoFrame) (src : NodeId) (target_type : ℕ) (cmd : CoverCommand) (sequence : ℕ)
    (key : List ℕ) (acei : ℕ) (broadcast_all : Bool)
    → target_type < 25
    → IsCommandAnswer f src
        (if broadcast_all then 0 else target_type)
        cmd
        sequence
        key
        acei
        (create_1w_execute_command f src target_type cmd sequence key acei broadcast_all)
unfolding create_1w_execute_command decode_1w_main_intent
create_1w_execute_command-IsCommandAnswer f src target_type cover_stop sequence key acei all h =
    inr (
      0xd2,
      0x00,
      refl,
      build_1w_execute-IsExecuted f src target_type 0xd2 0x00 sequence key acei all h,
    )
create_1w_execute_command-IsCommandAnswer f src target_type cover_favorite sequence key acei all h =
    inr (
      0xd8,
      0x00,
      refl,
      build_1w_execute-IsExecuted f src target_type 0xd8 0x00 sequence key acei all h,
    )
create_1w_execute_command-IsCommandAnswer f src target_type cover_vent sequence key acei all h =
    inr (
      0xd8,
      0x03,
      refl,
      build_1w_execute-IsExecuted f src target_type 0xd8 0x03 sequence key acei all h,
    )
create_1w_execute_command-IsCommandAnswer f src target_type cover_force_open sequence key acei all
      h =
    inl (refl, refl)
