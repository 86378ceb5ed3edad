-- ===== src/Base/Words.antt =====
-- Machine words: a w-bit value is a number below 2 ^ w, and an operation wraps explicitly.
use Prim.Native.Nat.{ℕ, ◌+◌, ◌-◌, ◌*◌, ◌/◌, ◌%◌, ◌^◌, ◌<◌}

abbrev pub IsByte : ℕ → Type 0
IsByte b = b < 256

abbrev pub IsU16 : ℕ → Type 0
IsU16 v = v < 65536

abbrev pub IsU32 : ℕ → Type 0
IsU32 v = v < 4294967296

-- `static_cast<uint8_t>`, `<uint16_t>`, `<uint32_t>` of a value that is not negative.
abbrev pub u8 : ℕ → ℕ
u8 v = v % 256

abbrev pub u16 : ℕ → ℕ
u16 v = v % 65536

abbrev pub u32 : ℕ → ℕ
u32 v = v % 4294967296

-- `a - b` on `uint32_t`, for operands in range.
abbrev pub sub32 : ℕ → ℕ → ℕ
sub32 a b = (a + 4294967296 - b) % 4294967296

-- `v << k` before the cast, and `v >> k`.
abbrev pub shl : ℕ → ℕ → ℕ
shl v k = v * 2 ^ k

abbrev pub shr : ℕ → ℕ → ℕ
shr v k = v / 2 ^ k
