-- ===== src/Frame/Accept.antt =====
-- What `parse` accepts, and that `serialize` writes it back.
use home_io_control_wio_b2b.Base.{
  ℕ, ◌+◌, ◌≡◌, ◌≤◌, sym, ap, ◌∙◌, Bool, true, false, if◌then◌else◌, some, List, [], ◌∷◌, ◌++◌,
  length, length-append, length-take, length-drop, append_nil, take_all, drop_all, take-append,
  drop-append, drop-replicate, take-append-drop, take, drop, replicate, arith, Bool-cases, inl, inr,
  drop-add, ap₂, subst,
}
use home_io_control_wio_b2b.Frame.{
  IoFrame, declared_length, frame_carries_mac_trailer, frame_bytes, serialize, parse, parse_fields,
  byte_at, node_at, slice, blit, hmac_size,
}
use home_io_control_wio_b2b.Frame.Layout.{IsCanonical, declared_length_le, serialize-frame_bytes}

-- The nine bytes of a header, and what follows.
data Headed : List ℕ → Type 0 where
  headed :
      (a b c d e f g h i : ℕ) (more : List ℕ) → Headed (a ∷ b ∷ c ∷ d ∷ e ∷ f ∷ g ∷ h ∷ i ∷ more)

Headed-length : (buf : List ℕ) → 9 ≤ length buf → Headed buf
Headed-length (a ∷ b ∷ c ∷ d ∷ e ∷ f ∷ g ∷ h ∷ i ∷ more) k = headed a b c d e f g h i more
Headed-length [] k = absurd (omega arith)
Headed-length (a ∷ []) k = absurd (omega arith)
Headed-length (a ∷ b ∷ []) k = absurd (omega arith)
Headed-length (a ∷ b ∷ c ∷ []) k = absurd (omega arith)
Headed-length (a ∷ b ∷ c ∷ d ∷ []) k = absurd (omega arith)
Headed-length (a ∷ b ∷ c ∷ d ∷ e ∷ []) k = absurd (omega arith)
Headed-length (a ∷ b ∷ c ∷ d ∷ e ∷ f ∷ []) k = absurd (omega arith)
Headed-length (a ∷ b ∷ c ∷ d ∷ e ∷ f ∷ g ∷ []) k = absurd (omega arith)
Headed-length (a ∷ b ∷ c ∷ d ∷ e ∷ f ∷ g ∷ h ∷ []) k = absurd (omega arith)

-- The header of one buffer before the rest of another.
abbrev header_of : List ℕ → List ℕ → List ℕ
header_of buf rest =
    byte_at buf 0
    ∷ byte_at buf 1
    ∷ byte_at buf 2
    ∷ byte_at buf 3
    ∷ byte_at buf 4
    ∷ byte_at buf 5
    ∷ byte_at buf 6
    ∷ byte_at buf 7
    ∷ byte_at buf 8
    ∷ rest

-- The frame that stands in a buffer with `d` bytes of payload.
abbrev decoded : List ℕ → ℕ → Bool → IoFrame
decoded buf d trailer = record {
  ctrl0 = byte_at buf 0;
  ctrl1 = byte_at buf 1;
  dst = node_at buf 2;
  src = node_at buf 5;
  cmd = byte_at buf 8;
  payload = blit (replicate 23 0) (slice buf 9 d);
  data_len = d;
  mac =
      if trailer
      then blit (replicate hmac_size 0) (slice buf (9 + d) hmac_size)
      else replicate hmac_size 0;
  has_mac = trailer;
}

-- The conditions under which `parse` accepts, for a payload of `d` bytes.
record IsAccepted (buf : List ℕ) (d : ℕ) (trailer : Bool) : Type 0 where
  size : length buf ≡ 9 + d + (if trailer then hmac_size else 0)
  declares : declared_length (byte_at buf 0) ≡ 9 + d
  fits : d ≤ 23
  allowed : trailer ≡ true → frame_carries_mac_trailer (byte_at buf 8) ≡ true

parse_accepts :
    (buf : List ℕ) (f g : IoFrame)
    → parse (some buf) g ≡ (true, f)
    → IsAccepted buf f.data_len f.has_mac × (f ≡ decoded buf f.data_len f.has_mac)
unfolding parse parse_fields
parse_accepts buf f g e = ground (arith, declared_length_le (byte_at buf 0))

length-slice : (buf : List ℕ) (i n : ℕ) → i + n ≤ length buf → length (slice buf i n) ≡ n
length-slice buf i n h = omega (arith, length-take n (drop i buf), length-drop i buf)

length-blit :
    (dest bytes : List ℕ) → length bytes ≤ length dest → length (blit dest bytes) ≡ length dest
length-blit dest bytes h =
    omega (arith, length-append bytes (drop (length bytes) dest), length-drop (length bytes) dest)

-- Behind what was copied the array is as it was.
drop-blit :
    (dest bytes : List ℕ) (n : ℕ) → n ≡ length bytes → drop n (blit dest bytes) ≡ drop n dest
drop-blit dest bytes n e =
    drop-append bytes (drop (length bytes) dest) n e ∙ ap (λ k. drop k dest) (sym e)

-- A copy that covers the whole array leaves nothing of it.
blit_whole : (dest bytes : List ℕ) → length dest ≤ length bytes → blit dest bytes ≡ bytes
blit_whole dest bytes h = ap (◌++◌ bytes) (drop_all (length bytes) dest h) ∙ append_nil bytes

module _ (buf : List ℕ) (d : ℕ) (trailer : Bool) (a : IsAccepted buf d trailer) where
  payload_length : length (slice buf 9 d) ≡ d
  payload_length = length-slice buf 9 d (ground (arith, a.size))

  mac_length : trailer ≡ true → length (slice buf (9 + d) hmac_size) ≡ hmac_size
  mac_length e = length-slice buf (9 + d) hmac_size (ground (arith, a.size))

  mac_covers :
      trailer ≡ true
      → blit (replicate hmac_size 0) (slice buf (9 + d) hmac_size) ≡ slice buf (9 + d) hmac_size
  mac_covers e = blit_whole _ _ (omega (arith, mac_length e))

  mac_size_lem : length (decoded buf d trailer).mac ≡ hmac_size
  mac_size_lem = elim (Bool-cases trailer) [
    | inl e ↦ rw (e, mac_covers e) (mac_length e)
    | inr e ↦ rw e
  ]

  accepted-IsCanonical : IsCanonical (decoded buf d trailer)
  accepted-IsCanonical = record {
    declared = a.declares;
    fits = a.fits;
    payload_size = length-blit (replicate 23 0) (slice buf 9 d) (omega (arith, payload_length));
    payload_rest =
        drop-blit (replicate 23 0) (slice buf 9 d) d (sym payload_length) ∙ drop-replicate d 23 0;
    mac_size = mac_size_lem;
    mac_unused = λ e. rw e;
    mac_allowed = a.allowed;
  }

  payload_written : take d (blit (replicate 23 0) (slice buf 9 d)) ≡ slice buf 9 d
  payload_written =
      take-append (slice buf 9 d) (drop (length (slice buf 9 d)) (replicate 23 0)) d
        (sym payload_length)

  rest_le : trailer ≡ true → length (drop d (drop 9 buf)) ≤ 6
  rest_le e = ground (arith, a.size, length-drop d (drop 9 buf), length-drop 9 buf)

  rest_fits : trailer ≡ false → length (drop 9 buf) ≤ d
  rest_fits e = ground (arith, a.size, length-drop 9 buf)

  mac_written : (if trailer then (decoded buf d trailer).mac else []) ≡ drop d (drop 9 buf)
  mac_written = elim (Bool-cases trailer) [
    | inl e ↦
        rw (e, mac_covers e)
          (ap (take hmac_size) (drop-add 9 d buf) ∙ take_all 6 (drop d (drop 9 buf)) (rest_le e))
    | inr e ↦ rw e (sym (drop_all d (drop 9 buf) (rest_fits e)))
  ]

  body_written :
      take d (blit (replicate 23 0) (slice buf 9 d))
        ++ (if trailer then (decoded buf d trailer).mac else [])
      ≡ drop 9 buf
  body_written = ap₂ ◌++◌ payload_written mac_written ∙ take-append-drop d (drop 9 buf)

head_written :
    (buf : List ℕ) → Headed buf → (rest : List ℕ) → rest ≡ drop 9 buf → header_of buf rest ≡ buf
head_written _ (headed a b c d e f g h i more) rest k = rw k

frame_bytes-decoded :
    (buf : List ℕ) (d : ℕ) (trailer : Bool)
    → IsAccepted buf d trailer
    → frame_bytes (decoded buf d trailer) ≡ buf
unfolding frame_bytes
frame_bytes-decoded buf d trailer a =
    head_written buf (Headed-length buf (omega (arith, a.size))) _ (body_written buf d trailer a)

-- What `parse` accepts is well formed, and `serialize` writes back the very bytes that were read,
-- into any buffer that is long enough.
pub serialize-parse :
    (buf : List ℕ) (f g : IoFrame) (size : ℕ)
    → parse (some buf) g ≡ (true, f)
    → length buf ≤ size
    → IsCanonical f × (serialize f (some size) ≡ buf)
serialize-parse buf f g size e h =
    let (a, shape) = parse_accepts buf f g e in
    let c : IsCanonical f =
      subst IsCanonical (sym shape) (accepted-IsCanonical buf f.data_len f.has_mac a) in
    (
      c,
      serialize-frame_bytes f size c (ground (arith, a.size, c.declared))
          ∙ ap frame_bytes shape
          ∙ frame_bytes-decoded buf f.data_len f.has_mac a,
    )
