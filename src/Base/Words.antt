-- ===== src/Base/Words.antt =====
-- Machine integers: ranges, byte orders, and masks as arithmetic.
use Prim.Native.Nat.{ℕ, zero, suc, ◌+◌, ◌*◌, ◌/◌, ◌%◌, ◌<◌, bit_and, bit_or}
use mathlib.Core.Path.{◌≡◌, refl}
use mathlib.Core.Bool.{Bool, true, ◌&&◌}
use mathlib.Core.List.{List, [], ◌∷◌}
use native.Mathlib.Omega.{arith}
use eo_ip_rs.Base.Tests.{◌==◌}

abbrev pub IsByte : ℕ → Type 0
IsByte b = b < 256

abbrev pub IsU16 : ℕ → Type 0
IsU16 n = n < 65536

-- Conversions with `as`, which keep the low bits.
abbrev pub as_u8 : ℕ → ℕ
as_u8 n = n % 256

abbrev pub as_u16 : ℕ → ℕ
as_u16 n = n % 65536

-- `fetch_add` on an `AtomicU64` wraps.
abbrev pub add_u64 : ℕ → ℕ → ℕ
add_u64 a b = (a + b) % 18446744073709551616

abbrev pub from_be_bytes : ℕ → ℕ → ℕ
from_be_bytes a b = a * 256 + b

abbrev pub from_le_bytes : ℕ → ℕ → ℕ
from_le_bytes a b = a + b * 256

abbrev pub to_be_bytes : ℕ → List ℕ
to_be_bytes n = n / 256 ∷ n % 256 ∷ []

abbrev pub to_le_bytes : ℕ → List ℕ
to_le_bytes n = n % 256 ∷ n / 256 ∷ []

-- Two functions that agree at every number below a bound, by evaluation.
agree_below : (ℕ → ℕ) → (ℕ → ℕ) → ℕ → Bool
agree_below f g zero = true
agree_below f g (suc n) = f n == g n && agree_below f g n

agree_below→eq : (f g : ℕ → ℕ) (n : ℕ) → agree_below f g n ≡ true → (i : ℕ) → i < n → f i ≡ g i
unfolding agree_below
agree_below→eq f g zero e i h = absurd (omega arith)
agree_below→eq f g (suc n) e i h = ground (arith, agree_below→eq f g n (ground arith) i)

pub low_nibble : (b : ℕ) → IsByte b → bit_and b 0x0F ≡ b % 16
unfolding agree_below
low_nibble = agree_below→eq _ _ 256 refl

pub low_twelve_bits : (n : ℕ) → n < 4096 → bit_and n 0x0FFF ≡ n
unfolding agree_below
low_twelve_bits = agree_below→eq _ (λ n. n) 4096 refl

pub low_byte : (n : ℕ) → n < 4096 → bit_and n 0xFF ≡ n % 256
unfolding agree_below
low_byte = agree_below→eq _ _ 4096 refl

-- A nibble over a byte, joined by `|`, is their sum.
pub nibble_or_byte : (n : ℕ) → n < 4096 → bit_or (n / 256 * 256) (n % 256) ≡ n
unfolding agree_below
nibble_or_byte = agree_below→eq (λ n. bit_or (n / 256 * 256) (n % 256)) (λ n. n) 4096 refl

pub nibble_or_three : (n : ℕ) → n < 16 → bit_or (n * 16) 3 ≡ n * 16 + 3
unfolding agree_below
nibble_or_three = agree_below→eq _ _ 16 refl
