-- ===== src/Frame/Build.antt =====
-- `init_frame` and `set_cmd` of proto_frame.cpp build frames that serialize.
use home_io_control_wio_b2b.Base.{
  ℕ, ◌+◌, ◌-◌, ◌≡◌, ◌≤◌, ◌/◌, ◌%◌, ◌*◌, refl, sym, ap, ◌∙◌, Bool, true, false, none, some, List, [],
  ◌∷◌, length, bit_and, not, ◌==◌, ==_iff, lt→ltb, suc, subst, length-append, length-drop,
  drop-append, take-append, take_all, take, drop, drop-append, if◌then◌else◌, ltb, drop-replicate,
  replicate, arith, IsByte,
}
use home_io_control_wio_b2b.Base.Bits.Table.{passes_below, passes_below_lem}
use home_io_control_wio_b2b.Base.Bits.Mask.{and_mask, or_fields}
use home_io_control_wio_b2b.Frame.{
  IoFrame, declared_length, serialize, parse, init_frame, set_cmd, with_length, blit, copy_params,
  is_start, is_end, set_dst, set_src, NodeId,
}
use home_io_control_wio_b2b.Frame.Layout.{IsCanonical}
use home_io_control_wio_b2b.Frame.RoundTrip.{parse-serialize}

flags_kept_table : passes_below 256 (λ c. bit_and c 0xe0 == c / 32 * 32) ≡ true
unfolding passes_below
flags_kept_table = refl

flags_kept : (c : ℕ) → IsByte c → bit_and c 0xe0 ≡ c / 32 * 32
flags_kept c h = (==_iff _ _).0 (passes_below_lem 256 _ c flags_kept_table h)

-- The flags above, the length below.
with_length_eq :
    (c total : ℕ)
    → IsByte c
    → 1 ≤ total
    → total ≤ 32
    → with_length c total ≡ c / 32 * 32 + (total - 1)
unfolding with_length
with_length_eq c total h lo hi =
    rw (flags_kept c h, and_mask 5 (total - 1))
      (or_fields 5 (c / 32) ((total - 1) % 32) (omega arith) ∙ omega arith)

pub declared-with_length :
    (c total : ℕ)
    → IsByte c
    → 1 ≤ total
    → total ≤ 32
    → declared_length (with_length c total) ≡ total
unfolding declared_length
declared-with_length c total h lo hi =
    rw (with_length_eq c total h lo hi, and_mask 5 (c / 32 * 32 + (total - 1))) (omega arith)

start_table : passes_below 256 (λ c. bit_and c 0x40 == c / 64 % 2 * 64) ≡ true
unfolding passes_below
start_table = refl

start_bit : (c : ℕ) → IsByte c → bit_and c 0x40 ≡ c / 64 % 2 * 64
start_bit c h = (==_iff _ _).0 (passes_below_lem 256 _ c start_table h)

end_table : passes_below 256 (λ c. bit_and c 0x80 == c / 128 * 128) ≡ true
unfolding passes_below
end_table = refl

end_bit : (c : ℕ) → IsByte c → bit_and c 0x80 ≡ c / 128 * 128
end_bit c h = (==_iff _ _).0 (passes_below_lem 256 _ c end_table h)

-- Writing the length leaves the flags of CTRL0.
with_length_flags :
    (c total : ℕ)
    → IsByte c
    → 1 ≤ total
    → total ≤ 32
    → (bit_and (with_length c total) 0x40 ≡ bit_and c 0x40)
      × (bit_and (with_length c total) 0x80 ≡ bit_and c 0x80)
with_length_flags c total h lo hi =
    let e = with_length_eq c total h lo hi in
    (
      start_bit _ (omega (arith, e)) ∙ omega (arith, e, start_bit c h),
      end_bit _ (omega (arith, e)) ∙ omega (arith, e, end_bit c h),
    )

-- A frame as the constructors of proto_commands.cpp start it.
abbrev pub addressed : Bool → Bool → Bool → Bool → NodeId → NodeId → IoFrame
addressed is_2w start end low_power dst src =
    set_src (set_dst (init_frame is_2w start end low_power) dst) src

-- The flags of a new frame, which has nothing else.
init_flags :
    (is_2w start end low_power : Bool)
    → IsByte (init_frame is_2w start end low_power).ctrl0
      × (is_start (init_frame is_2w start end low_power) ≡ start)
      × (is_end (init_frame is_2w start end low_power) ≡ end)
unfolding init_frame is_start is_end
init_flags true true true low_power = (omega arith, refl, refl)
init_flags true true false low_power = (omega arith, refl, refl)
init_flags true false true low_power = (omega arith, refl, refl)
init_flags true false false low_power = (omega arith, refl, refl)
init_flags false true true low_power = (omega arith, refl, refl)
init_flags false true false low_power = (omega arith, refl, refl)
init_flags false false true low_power = (omega arith, refl, refl)
init_flags false false false low_power = (omega arith, refl, refl)

-- `set_cmd` on such a frame, written out.
abbrev pub commanded : IoFrame → ℕ → List ℕ → IoFrame
commanded f cmd params = record f {
  cmd = cmd;
  data_len = length params;
  payload = blit (replicate 23 0) params;
  ctrl0 = with_length f.ctrl0 (9 + length params);
}

copied :
    (params dest : List ℕ)
    → (if ltb 0 (length params) then copy_params (some params) (length params) dest else dest)
      ≡ blit dest params
unfolding copy_params
copied [] dest = refl
copied (x ∷ xs) dest =
    rw (lt→ltb 0 (suc (length xs)) (omega arith))
      (ap (blit dest) (take_all (length (x ∷ xs)) (x ∷ xs) (omega arith)))

set_cmd-commanded :
    (f : IoFrame) (cmd : ℕ) (params : List ℕ)
    → f.payload ≡ replicate 23 0
    → length params ≤ 23
    → set_cmd f cmd (some params) (length params) ≡ (true, commanded f cmd params)
unfolding set_cmd
set_cmd-commanded f cmd params e h = ground (arith, copied params f.payload)

blit-zeros :
    (params : List ℕ)
    → length params ≤ 23
    → (length (blit (replicate 23 0) params) ≡ 23)
      × (drop (length params) (blit (replicate 23 0) params) ≡ replicate (23 - length params) 0)
      × (take (length params) (blit (replicate 23 0) params) ≡ params)
blit-zeros params h =
    let rest = drop (length params) (replicate 23 0) in
    (
      omega
          (arith, length-append params rest, length-drop {A = ℕ} (length params) (replicate 23 0)),
      drop-append params rest (length params) refl ∙ drop-replicate (length params) 23 0,
      take-append params rest (length params) refl,
    )

-- What is promised of the answer of `set_cmd`, for the flags and parameters that were asked for.
abbrev pub IsBuilt : Bool → Bool → List ℕ → IoFrame → Bool × IoFrame → Type 0
IsBuilt start end params g (accepted, f) =
    (accepted ≡ true)
    × IsCanonical f
    × (take f.data_len f.payload ≡ params)
    × (is_start f ≡ start)
    × (is_end f ≡ end)
    × (parse (some (serialize f (some 32))) g ≡ (true, f))

module _ (is_2w start end low_power : Bool) (dst src : NodeId) (cmd : ℕ) (params : List ℕ)
    (h : length params ≤ 23) where
  fresh : IoFrame
  fresh = addressed is_2w start end low_power dst src

  fresh_flags : IsByte fresh.ctrl0 × (is_start fresh ≡ start) × (is_end fresh ≡ end)
  unfolding fresh set_dst set_src is_start is_end
  fresh_flags = init_flags is_2w start end low_power

  commanded-IsCanonical : IsCanonical (commanded fresh cmd params)
  unfolding fresh init_frame set_dst set_src
  commanded-IsCanonical = record {
    declared =
        declared-with_length fresh.ctrl0 (9 + length params) fresh_flags.0 (omega arith)
          (omega arith);
    fits = h;
    payload_size = (blit-zeros params h).0;
    payload_rest = (blit-zeros params h).1;
    mac_size = refl;
    mac_unused = λ e. refl;
    mac_allowed = λ e. cc;
  }

  commanded_flags :
      (is_start (commanded fresh cmd params) ≡ start) × (is_end (commanded fresh cmd params) ≡ end)
  unfolding is_start is_end
  commanded_flags =
      let kept =
        with_length_flags fresh.ctrl0 (9 + length params) fresh_flags.0 (omega arith)
          (omega arith) in
      (ap (λ b. not (b == 0)) kept.0 ∙ fresh_flags.1, ap (λ b. not (b == 0)) kept.1 ∙ fresh_flags.2)

  commanded-IsBuilt : (g : IoFrame) → IsBuilt start end params g (true, commanded fresh cmd params)
  unfolding fresh init_frame set_dst set_src
  commanded-IsBuilt g = (
    refl,
    commanded-IsCanonical,
    (blit-zeros params h).2,
    commanded_flags.0,
    commanded_flags.1,
    parse-serialize (commanded fresh cmd params) g 32 commanded-IsCanonical
        (omega (arith, commanded-IsCanonical.declared)),
  )

  set_cmd-fresh :
      set_cmd fresh cmd (some params) (length params) ≡ (true, commanded fresh cmd params)
  unfolding fresh init_frame set_dst set_src
  set_cmd-fresh = set_cmd-commanded fresh cmd params refl h

-- A frame that `init_frame`, the two setters and `set_cmd` make from at most 23 parameters is
-- accepted, well formed, carries exactly these parameters, keeps its START and END flags, and is
-- parsed back as it is from what `serialize` writes into a buffer of the declared maximum size.
pub set_cmd-IsBuilt :
    (is_2w start end low_power : Bool) (dst src : NodeId) (cmd : ℕ) (params : List ℕ) (g : IoFrame)
    → length params ≤ 23
    → IsBuilt start end params g
        (set_cmd (addressed is_2w start end low_power dst src) cmd (some params) (length params))
unfolding fresh
set_cmd-IsBuilt is_2w start end low_power dst src cmd params g h =
    subst (IsBuilt start end params g)
      (sym (set_cmd-fresh is_2w start end low_power dst src cmd params h))
      (commanded-IsBuilt is_2w start end low_power dst src cmd params h g)

-- What `set_cmd` leaves of the header of such a frame.
pub set_cmd_header :
    (is_2w start end low_power : Bool) (dst src : NodeId) (cmd : ℕ) (params : List ℕ)
    → length params ≤ 23
    → ((set_cmd
          (addressed is_2w start end low_power dst src)
          cmd
          (some params)
          (length params)).1.cmd
        ≡ cmd)
      × ((set_cmd
            (addressed is_2w start end low_power dst src)
            cmd
            (some params)
            (length params)).1.dst
          ≡ dst)
      × ((set_cmd
            (addressed is_2w start end low_power dst src)
            cmd
            (some params)
            (length params)).1.src
          ≡ src)
      × ((set_cmd
            (addressed is_2w start end low_power dst src)
            cmd
            (some params)
            (length params)).1.ctrl1
          ≡ (if low_power then 0x20 else 0))
      × ((set_cmd
            (addressed is_2w start end low_power dst src)
            cmd
            (some params)
            (length params)).1.payload
          ≡ blit (replicate 23 0) params)
      × ((set_cmd
            (addressed is_2w start end low_power dst src)
            cmd
            (some params)
            (length params)).1.data_len
          ≡ length params)
unfolding fresh init_frame set_dst set_src
set_cmd_header is_2w start end true dst src cmd params h =
    rw (set_cmd-fresh is_2w start end true dst src cmd params h)
      (refl, refl, refl, refl, refl, refl)
set_cmd_header is_2w start end false dst src cmd params h =
    rw (set_cmd-fresh is_2w start end false dst src cmd params h)
      (refl, refl, refl, refl, refl, refl)

-- Without parameters, a null pointer and an empty array are the same.
pub set_cmd-none : (f : IoFrame) (cmd : ℕ) → set_cmd f cmd none 0 ≡ set_cmd f cmd (some []) 0
unfolding set_cmd
set_cmd-none f cmd = refl

pub set_cmd-addressed :
    (is_2w start end low_power : Bool) (dst src : NodeId) (cmd : ℕ) (params : List ℕ)
    → length params ≤ 23
    → set_cmd (addressed is_2w start end low_power dst src) cmd (some params) (length params)
      ≡ (true, commanded (addressed is_2w start end low_power dst src) cmd params)
unfolding fresh
set_cmd-addressed is_2w start end low_power dst src cmd params h =
    set_cmd-fresh is_2w start end low_power dst src cmd params h

pub addressed-IsCanonical :
    (is_2w start end low_power : Bool) (dst src : NodeId) (cmd : ℕ) (params : List ℕ)
    → length params ≤ 23
    → IsCanonical (commanded (addressed is_2w start end low_power dst src) cmd params)
unfolding fresh
addressed-IsCanonical is_2w start end low_power dst src cmd params h =
    commanded-IsCanonical is_2w start end low_power dst src cmd params h
