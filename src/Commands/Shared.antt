-- ===== src/Commands/Shared.antt =====
-- components/home_io_control/proto_commands.cpp against proto_crypto.cpp: what two nodes that share the
-- system key make of each other's frames.
use home_io_control_wio_b2b.Base.{
  ℕ, ◌≡◌, ◌≤◌, refl, sym, subst, ap, ◌∙◌, Bool, true, false, ◌==◌, ==_iff, Option, none, some, List,
  length, [], ◌∷◌, ◌++◌, take, drop, arith, replicate, take-append, drop-append, append_assoc,
  Bool-cases, ◌⊎◌, inl, inr,
}
use home_io_control_wio_b2b.Frame.{IoFrame, NodeId, slice, set_cmd}
use home_io_control_wio_b2b.Frame.Build.{addressed, set_cmd_header}
use home_io_control_wio_b2b.Crypto.Auth.{create_hmac, verify_hmac, generate_challenge}
use home_io_control_wio_b2b.Crypto.Auth.Compare.{verify_hmac_iff}
use home_io_control_wio_b2b.Crypto.Auth.Wrap.{crypt_key_twice}
use home_io_control_wio_b2b.Commands.Pairing.{
  discover_spe, create_discovery_request, recover_system_key_from_transfer, create_key_transfer,
  transcript, create_challenge_resp_framed,
}
use home_io_control_wio_b2b.Commands.Sent.{IsSent, set_cmd-IsSent, bare-IsSent}

-- An authenticator is always made, and verifies.
pub create_hmac-length :
    (span challenge key : List ℕ)
    → (hmac : List ℕ) × (create_hmac span challenge key ≡ some hmac)
      × (length hmac ≡ 6)
      × (verify_hmac span hmac challenge key ≡ true)
create_hmac-length span challenge key =
    let (hmac, made, six, _) = verify_hmac_iff span (replicate 6 0) challenge key refl in
    let (again, made_again, _, accepts) = verify_hmac_iff span hmac challenge key six in
    (hmac, made, six, accepts.1 (same_some (sym made ∙ made_again)))
  where
    same_some : {x y : List ℕ} → some x ≡ some y → x ≡ y
    same_some e = cc

-- A frame whose payload begins with the parameters.
first_params :
    (start end low_power : Bool) (dst src : NodeId) (cmd : ℕ) (params : List ℕ) (n : ℕ)
    → length params ≡ n
    → n ≤ 23
    → take n (set_cmd (addressed true start end low_power dst src) cmd (some params) n).1.payload
      ≡ params
first_params start end low_power dst src cmd params n e h =
    subst
      (λ k.
        take k (set_cmd (addressed true start end low_power dst src) cmd (some params) k).1.payload
        ≡ params)
      e
      (let header = set_cmd_header true start end low_power dst src cmd params (omega arith) in
        rw (header.4)
          (take-append params (drop (length params) (replicate 23 0)) (length params) refl))

-- A response that the holder of the same key accepts for the request, in the roles' framings.
abbrev pub IsProof :
    NodeId → NodeId → Bool → Bool → List ℕ → IoFrame → List ℕ → Bool × IoFrame → Type 0
IsProof dst src end low_power challenge origin key answer =
    IsSent false end low_power src dst 0x3d answer
    × (verify_hmac (transcript origin) (take 6 answer.1.payload) challenge key ≡ true)

-- The response to a challenge is always built, on either side of an exchange: it goes on air as a
-- well-formed frame, and the holder of the same key who issued the challenge verifies its six bytes
-- against the command and payload of the original request.
pub create_challenge_resp_framed-IsProof :
    (dst src : NodeId) (challenge : List ℕ) (origin : IoFrame) (key : List ℕ) (end low_power : Bool)
    → IsProof dst src end low_power challenge origin key
        (create_challenge_resp_framed dst src challenge origin key end low_power)
unfolding create_challenge_resp_framed
create_challenge_resp_framed-IsProof dst src challenge origin key end low_power =
    let (hmac, made, six, verified) = create_hmac-length (transcript origin) challenge key in
    let f = addressed true false end low_power dst src in
    rw (made, create_challenge_resp_framed)
      (
        subst (λ n. IsSent false end low_power src dst 0x3d (set_cmd f 0x3d (some hmac) n)) six
            (set_cmd-IsSent true false end low_power src dst 0x3d hmac (omega arith)),
        rw (first_params false end low_power dst src 0x3d hmac 6 six (omega arith)) verified,
      )

-- A frame that carries the key to a device.
abbrev pub IsTransfer : NodeId → NodeId → List ℕ → List ℕ → Bool × IoFrame → Type 0
IsTransfer dst src key challenge answer =
    IsSent false false true src dst 0x32 answer
    × (recover_system_key_from_transfer (take 16 answer.1.payload) challenge ≡ some key)

-- The transfer of a key of sixteen bytes that answers a key initiation is always built and goes on air
-- as a well-formed frame, and the device recovers the key from its payload with the challenge that it
-- issued.
pub create_key_transfer-IsTransfer :
    (old_frame : IoFrame) (dst src : NodeId) (key challenge : List ℕ)
    → old_frame.cmd ≡ 0x31
    → length key ≡ 16
    → IsTransfer dst src key challenge (create_key_transfer old_frame dst src key challenge)
unfolding create_key_transfer recover_system_key_from_transfer
create_key_transfer-IsTransfer old_frame dst src key challenge init size =
    let (wrapped, made, wrapped_size, back) = crypt_key_twice (0x31 ∷ []) challenge key size in
    let f = addressed true false false true dst src in
    rw (init, made, create_key_transfer)
      (
        subst (λ n. IsSent false false true src dst 0x32 (set_cmd f 0x32 (some wrapped) n))
            wrapped_size (set_cmd-IsSent true false false true src dst 0x32 wrapped (omega arith)),
        rw (first_params false false true dst src 0x32 wrapped 16 wrapped_size (omega arith)) back,
      )

-- A broadcast that can be checked: a nonce and the authenticator of the command under the nonce.
abbrev pub IsCheckable : List ℕ → Bool × IoFrame → Type 0
IsCheckable key answer =
    verify_hmac (0x2a ∷ []) (slice answer.1.payload 6 6) (take 6 answer.1.payload) key ≡ true

-- The three kinds of answer: authenticated, plain and refused.
abbrev pub IsDiscovery : NodeId → ℕ → NodeId → Bool → Option (List ℕ) → Bool × IoFrame → Type 0
IsDiscovery own command dst low_power system_key answer =
    ((key : List ℕ) × (command ≡ 0x2a)
      × (system_key ≡ some key)
      × IsSent true true low_power own dst command answer
      × IsCheckable key answer)
    ⊎ (((command ≡ 0x28) ⊎ (command ≡ 0x2e)) × IsSent true true low_power own dst command answer)
    ⊎ ((answer.0 ≡ false)
        × ((command ≡ 0x2a) × (system_key ≡ none)
            ⊎ ((command == 0x28) ≡ false)
              × ((command == 0x2a) ≡ false)
              × ((command == 0x2e) ≡ false)))

checkable_payload :
    (nonce hmac rest : List ℕ)
    → length nonce ≡ 6
    → length hmac ≡ 6
    → (slice ((nonce ++ hmac) ++ rest) 6 6 ≡ hmac) × (take 6 ((nonce ++ hmac) ++ rest) ≡ nonce)
checkable_payload nonce hmac rest n h = rw (append_assoc nonce hmac rest) (
  ap (take 6) (drop-append nonce (hmac ++ rest) 6 (sym n)) ∙ take-append hmac rest 6 (sym h),
  take-append nonce (hmac ++ rest) 6 (sym n),
)

discover_spe-IsCheckable :
    (random : ℕ → ℕ) (own dst : NodeId) (low_power : Bool) (key : List ℕ)
    → IsSent true true low_power own dst 0x2a
        (discover_spe random (addressed true true true low_power dst own) (some key))
      × IsCheckable key
          (discover_spe random (addressed true true true low_power dst own) (some key))
unfolding discover_spe generate_challenge
discover_spe-IsCheckable random own dst low_power key =
    let nonce = generate_challenge random in
    let (hmac, made, six, verified) = create_hmac-length (0x2a ∷ []) nonce key in
    let size : length (nonce ++ hmac) ≤ 23 = omega (arith, six) in
    let header = set_cmd_header true true true low_power dst own 0x2a (nonce ++ hmac) size in
    rw (made, discover_spe)
      (
        set_cmd-IsSent true true true low_power own dst 0x2a (nonce ++ hmac) size,
        rw (header.4) (
            let parts =
              checkable_payload nonce hmac (drop (length (nonce ++ hmac)) (replicate 23 0)) refl
                six in
            rw (parts.0, parts.1) verified),
      )

module _ (random : ℕ → ℕ) (own dst : NodeId) (low_power : Bool) (payload : ℕ) where
  plain-IsDiscovery :
      (enabled : Bool) (system_key : Option (List ℕ))
      → IsDiscovery own 0x28 dst low_power system_key
          (create_discovery_request random own 0x28 dst low_power enabled payload system_key)
  unfolding create_discovery_request
  plain-IsDiscovery enabled system_key =
      inr (inl (inl refl, bare-IsSent true true true low_power own dst 0x28))

  alternative-IsDiscovery :
      (enabled : Bool) (system_key : Option (List ℕ))
      → IsDiscovery own 0x2e dst low_power system_key
          (create_discovery_request random own 0x2e dst low_power enabled payload system_key)
  unfolding create_discovery_request
  alternative-IsDiscovery true system_key = inr (
      inl (
        inr refl,
        set_cmd-IsSent true true true low_power own dst 0x2e (payload ∷ []) (omega arith),
      ))
  alternative-IsDiscovery false system_key =
      inr (inl (inr refl, bare-IsSent true true true low_power own dst 0x2e))

  authenticated-IsDiscovery :
      (enabled : Bool) (system_key : Option (List ℕ))
      → IsDiscovery own 0x2a dst low_power system_key
          (create_discovery_request random own 0x2a dst low_power enabled payload system_key)
  unfolding create_discovery_request discover_spe
  authenticated-IsDiscovery enabled none = inr (inr (refl, inl (refl, refl)))
  authenticated-IsDiscovery enabled (some key) =
      let (sent, checkable) = discover_spe-IsCheckable random own dst low_power key in
      inl (key, refl, refl, sent, checkable)

-- A discovery request is refused exactly for an unknown command, or for an authenticated discovery
-- without a system key. Otherwise it goes on air as a well-formed frame with START and END set, and an
-- authenticated one carries a nonce and an authenticator that the holder of the key verifies.
pub create_discovery_request-IsDiscovery :
    (random : ℕ → ℕ) (own : NodeId) (command : ℕ) (dst : NodeId) (low_power payload_enabled : Bool)
    (payload : ℕ) (system_key : Option (List ℕ))
    → IsDiscovery own command dst low_power system_key (
        create_discovery_request random own command dst low_power payload_enabled payload
          system_key)
unfolding create_discovery_request
create_discovery_request-IsDiscovery random own command dst low_power enabled payload system_key =
    elim (Bool-cases (command == 0x28)) [
      | inl e ↦ at 0x28 e (plain-IsDiscovery random own dst low_power payload enabled system_key)
      | inr e ↦ elim (Bool-cases (command == 0x2a)) [
        | inl spe ↦
            at 0x2a spe
              (authenticated-IsDiscovery random own dst low_power payload enabled system_key)
        | inr other ↦ elim (Bool-cases (command == 0x2e)) [
          | inl alt ↦
              at 0x2e alt
                (alternative-IsDiscovery random own dst low_power payload enabled system_key)
          | inr none_of ↦
              inr (
                inr
                  (rw (e, other, none_of, create_discovery_request) refl, inr (e, other, none_of)))
        ]
      ]
    ]
  where
    at :
        (c : ℕ)
        → command == c ≡ true
        → IsDiscovery own c dst low_power system_key
            (create_discovery_request random own c dst low_power enabled payload system_key)
        → IsDiscovery own command dst low_power system_key
            (create_discovery_request random own command dst low_power enabled payload system_key)
    at c e h =
        subst
          (λ k.
            IsDiscovery own k dst low_power system_key
              (create_discovery_request random own k dst low_power enabled payload system_key))
          (sym ((==_iff command c).0 e)) h
