-- ===== src/Prelude/Hex.antt =====
-- Hexadecimal texts: `%x` of package fmt, and `hex.DecodeString`.
use Prim.Native.Nat.{ℕ, ◌+◌, ◌-◌, ◌*◌, ◌/◌, ◌%◌, ◌<◌}
use mathlib.Core.Path.{◌≡◌, refl, ap}
use mathlib.Core.Bool.{◌&&◌}
use mathlib.Core.List.{[], ◌∷◌}
use mathlib.Core.Option.{Option, none, some}
use native.Mathlib.Omega.{arith}
use monocle.Prelude.Lists.{All}
use monocle.Prelude.Maybe.{◌>>=◌}
use monocle.Prelude.Tests.{ltb, leb, if◌then◌else◌}
use monocle.Prelude.Text.{Text}

abbrev hex_digit : ℕ → ℕ
hex_digit d = if ltb d 10 then b'0' + d else b'a' + (d - 10)

-- `%x` of bytes
unfoldable pub hex : Text → Text
hex [] = []
hex (b ∷ bytes) = hex_digit (b / 16) ∷ hex_digit (b % 16) ∷ hex bytes

unfoldable pub from_hex : ℕ → Option ℕ
from_hex c =
    if leb b'0' c && leb c b'9'
    then some (c - b'0')
    else if leb b'a' c && leb c b'f'
    then some (c - b'a' + 10)
    else if leb b'A' c && leb c b'F'
    then some (c - b'A' + 10)
    else none

-- `hex.DecodeString`; `none` is the error of an odd length or of another character.
unfoldable pub decode_hex : Text → Option Text
decode_hex [] = some []
decode_hex (c ∷ []) = none
decode_hex (c ∷ d ∷ s) = do
  hi ← from_hex c
  lo ← from_hex d
  rest ← decode_hex s
  some ((hi * 16 + lo) ∷ rest)

from_hex-hex_digit : (d : ℕ) → d < 16 → from_hex (hex_digit d) ≡ some d
unfolding from_hex
from_hex-hex_digit d h = ground arith

-- Bytes.
abbrev pub IsByte : ℕ → Type 0
IsByte b = b < 256

pub decode_hex-hex : (bytes : Text) → All IsByte bytes → decode_hex (hex bytes) ≡ some bytes
unfolding decode_hex hex
decode_hex-hex [] h = refl
decode_hex-hex (b ∷ bytes) (p, h) =
    rw
      (
        from_hex-hex_digit (b / 16) (omega arith),
        from_hex-hex_digit (b % 16) (omega arith),
        decode_hex-hex bytes h,
      )
      (ap (λ x. some (x ∷ bytes)) (omega arith))
