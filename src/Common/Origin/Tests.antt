-- ===== src/Common/Origin/Tests.antt =====
-- A tag encoded and decoded. A text is its bytes, and a time its milliseconds, none before the epoch.
use scriptum.Prelude.{
  ℕ, Option, none, some, List, [], ◌∷◌, ◌≡◌, refl, arith, leb, if◌then◌else◌, nat_eq,
}
use scriptum.Prelude.Numbers.{ℤ, pos, negsuc, IsI64}
use scriptum.Prelude.Bytes.{from_le_bytes}
use scriptum.Prelude.Results.{ok, ◌>>=◌}
use scriptum.Common.Origin.{OriginTag, Utf8, Calendar, agent, to_bytes, from_bytes}
use scriptum.Common.Origin.Codec.{from-to_bytes, to-from_bytes}

abbrev ascii : Utf8 (List ℕ)
ascii = record {
  as_bytes = λ s. s;
  from_utf8 = λ s. some s;
  from-as_bytes = λ s. refl;
  as-from_utf8 = λ bs s e. cc;
}

-- Two times: the epoch, and a second after it.
data Clock : Type 0 where
  epoch : Clock
  second : Clock

abbrev millis : Clock → ℤ
millis epoch = pos 0
millis second = pos 1000

abbrev clock_of : ℕ → Option Clock
clock_of n =
    if leb n 0
    then some epoch
    else if leb n 999
    then none
    else if leb n 1000
    then some second
    else none

abbrev time_of : ℤ → Option Clock
time_of (pos n) = clock_of n
time_of (negsuc n) = none

time_of-millis : (t : Clock) → time_of (millis t) ≡ some t
time_of-millis epoch = refl
time_of-millis second = refl

millis-time_of : (z : ℤ) (t : Clock) → time_of z ≡ some t → millis t ≡ z
millis-time_of (pos n) epoch e = ground arith
millis-time_of (pos n) second e = ground arith
millis-time_of (negsuc n) t e = cc

millis-IsI64 : (t : Clock) → IsI64 (millis t)
millis-IsI64 epoch = omega arith
millis-IsI64 second = omega arith

abbrev calendar : Calendar Clock
calendar = record {
  timestamp_millis = millis;
  timestamp_millis_opt = time_of;
  millis-IsI64 = millis-IsI64;
  truncated = λ t. t;
  opt-millis = time_of-millis;
  millis-opt = millis-time_of;
}

abbrev tag : OriginTag (List ℕ) Clock
tag = record { author_id = 97 ∷ 98 ∷ []; author_type = agent; timestamp = second }

abbrev bytes : List ℕ
bytes = 1 ∷ 2 ∷ 97 ∷ 98 ∷ 232 ∷ 3 ∷ 0 ∷ 0 ∷ 0 ∷ 0 ∷ 0 ∷ 0 ∷ []

from-to_bytes_example : (to_bytes ascii calendar tag >>= from_bytes ascii calendar) ≡ ok tag
from-to_bytes_example = from-to_bytes ascii calendar tag (omega arith)

to-from_bytes_example : to_bytes ascii calendar tag ≡ ok bytes
unfolding from_bytes from_le_bytes
to-from_bytes_example = to-from_bytes ascii calendar bytes tag (omega arith) refl
