-- ===== src/Common/Words.antt =====
-- Machine integers: `u32` and a `usize` of 64 bits as native numbers, with the checked and
-- saturating operations of Rust's standard library.
use Prim.Native.Nat.{ℕ, ◌+◌, ◌-◌, ◌*◌, ◌^◌, ◌<◌, min}
use mathlib.Core.Option.{Option, none, some}
use rust_yamux.Common.Tests.{leb, if◌then◌else◌}

abbrev pub u8_mod : ℕ
u8_mod = 256

abbrev pub u16_mod : ℕ
u16_mod = 2 ^ 16

abbrev pub u32_max : ℕ
u32_max = 2 ^ 32 - 1

abbrev pub usize_max : ℕ
usize_max = 2 ^ 64 - 1

abbrev pub IsU32 : ℕ → Type 0
IsU32 n = n < 2 ^ 32

-- `u32::checked_add`, and the addition of a debug build, which panics where this is `none`.
abbrev pub checked_add_u32 : ℕ → ℕ → Option ℕ
checked_add_u32 a b = if leb (a + b) u32_max then some (a + b) else none

-- `checked_sub`, the same at every width, and the subtraction of a debug build.
abbrev pub checked_sub : ℕ → ℕ → Option ℕ
checked_sub a b = if leb b a then some (a - b) else none

-- The `usize` operations of a debug build.
abbrev pub checked_add_usize : ℕ → ℕ → Option ℕ
checked_add_usize a b = if leb (a + b) usize_max then some (a + b) else none

abbrev pub checked_mul_usize : ℕ → ℕ → Option ℕ
checked_mul_usize a b = if leb (a * b) usize_max then some (a * b) else none

-- `u32::saturating_sub` is the subtraction of `ℕ`; `u32::saturating_mul(2)`.
abbrev pub saturating_double : ℕ → ℕ
saturating_double a = min (2 * a) u32_max

-- `usize::try_into::<u32>().unwrap_or(u32::MAX)`.
abbrev pub to_u32_or_max : ℕ → ℕ
to_u32_or_max n = if leb n u32_max then n else u32_max
