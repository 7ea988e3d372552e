-- ===== src/Prelude/Bytes.antt =====
-- Little-endian integers of a fixed width, as lists of bytes (numbers below 256).
use Prim.Native.Nat.{ℕ, zero, suc, ◌+◌, ◌*◌, ◌/◌, ◌%◌, ◌<◌}
use mathlib.Core.Path.{◌≡◌, refl, ap}
use mathlib.Core.List.{List, [], ◌∷◌}
use native.Mathlib.Omega.{arith}
use scriptum.Prelude.Lists.{length, All}

-- `to_le_bytes` of a `w`-byte integer.
unfoldable pub to_le_bytes : ℕ → ℕ → List ℕ
to_le_bytes zero n = []
to_le_bytes (suc w) n = (n % 256) ∷ to_le_bytes w (n / 256)

-- `from_le_bytes`.
unfoldable pub from_le_bytes : List ℕ → ℕ
from_le_bytes [] = 0
from_le_bytes (b ∷ bs) = b + 256 * from_le_bytes bs

abbrev pub AllBytes : List ℕ → Type 0
AllBytes = All (λ b. b < 256)

pub length-to_le_bytes : (w n : ℕ) → length (to_le_bytes w n) ≡ w
unfolding to_le_bytes
length-to_le_bytes zero n = refl
length-to_le_bytes (suc w) n = ap suc (length-to_le_bytes w (n / 256))

pub to_le_bytes-AllBytes : (w n : ℕ) → AllBytes (to_le_bytes w n)
unfolding to_le_bytes
to_le_bytes-AllBytes zero n = tt
to_le_bytes-AllBytes (suc w) n = (omega arith, to_le_bytes-AllBytes w (n / 256))

-- 256 ^ w, by recursion.
abbrev pub byte_range : ℕ → ℕ
byte_range zero = 1
byte_range (suc w) = 256 * byte_range w

pub from-to_le_bytes : (w n : ℕ) → n < byte_range w → from_le_bytes (to_le_bytes w n) ≡ n
unfolding to_le_bytes from_le_bytes
from-to_le_bytes zero n h = omega arith
from-to_le_bytes (suc w) n h = omega (arith, from-to_le_bytes w (n / 256) (omega arith))

pub from_le_bytes-lt : (bs : List ℕ) → AllBytes bs → from_le_bytes bs < byte_range (length bs)
unfolding from_le_bytes
from_le_bytes-lt [] h = omega arith
from_le_bytes-lt (b ∷ bs) h = omega (arith, from_le_bytes-lt bs h.1)

pub to-from_le_bytes : (bs : List ℕ) → AllBytes bs → to_le_bytes (length bs) (from_le_bytes bs) ≡ bs
unfolding to_le_bytes from_le_bytes
to-from_le_bytes [] h = refl
to-from_le_bytes (b ∷ bs) h =
    let n = from_le_bytes bs in
    let low : (b + 256 * n) % 256 ≡ b = omega arith in
    let high : (b + 256 * n) / 256 ≡ n = omega arith in
    rw low (rw high (ap (◌∷◌ b) (to-from_le_bytes bs h.1)))
