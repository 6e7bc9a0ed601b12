-- ===== src/Prelude/Suffix.antt =====
-- `strings.HasSuffix` and `strings.TrimSuffix`, and the UTF-8 bytes of a text.
use Prim.Native.Nat.{ℕ, ◌+◌, ◌-◌, ◌/◌, ◌%◌, ◌≤◌}
use mathlib.Core.Path.{◌≡◌, sym, ◌∙◌, ap}
use mathlib.Core.Bool.{Bool, true, ◌&&◌}
use mathlib.Core.List.{List, [], ◌∷◌, ◌++◌}
use native.Mathlib.Omega.{arith}
use monocle.Prelude.Tests.{ltb, leb, if◌then◌else◌}
use monocle.Prelude.Lists.{
  length, take, drop, length-append, take-append-drop, drop-append_length, take-append_length,
}
use monocle.Prelude.Text.{Text, eqb, eqb_iff, eqb_refl, has_prefix}

unfoldable pub has_suffix : Text → Text → Bool
has_suffix s t = leb (length t) (length s) && eqb (drop (length s - length t) s) t

unfoldable pub trim_suffix : Text → Text → Text
trim_suffix s t = if has_suffix s t then take (length s - length t) s else s

-- `strings.TrimPrefix`
unfoldable pub trim_prefix : Text → Text → Text
trim_prefix s prefix = if has_prefix s prefix then drop (length prefix) s else s

sub_append : (p t : Text) → length (p ++ t) - length t ≡ length p
sub_append p t = omega (arith, length-append p t)

pub has_suffix-append : (p t : Text) → has_suffix (p ++ t) t ≡ true
unfolding has_suffix
has_suffix-append p t =
    rw (sub_append p t, drop-append_length p t, eqb_refl t) (ground (arith, length-append p t))

pub trim_suffix-append : (p t : Text) → trim_suffix (p ++ t) t ≡ p
unfolding trim_suffix
trim_suffix-append p t = rw (has_suffix-append p t, sub_append p t) (take-append_length p t)

has_suffix-drop : (s t : Text) → has_suffix s t ≡ true → drop (length s - length t) s ≡ t
unfolding has_suffix
has_suffix-drop s t h = ground (arith, eqb_iff (drop (length s - length t) s) t)

trim_suffix-take :
    (s t : Text) → has_suffix s t ≡ true → trim_suffix s t ≡ take (length s - length t) s
unfolding trim_suffix
trim_suffix-take s t h = rw h

-- A suffix that is there is what trimming takes off.
pub trim_suffix_lem : (s t : Text) → has_suffix s t ≡ true → s ≡ trim_suffix s t ++ t
trim_suffix_lem s t h =
    let n = length s - length t in
    sym (take-append-drop n s)
    ∙ ap (λ r. r ++ drop n s) (sym (trim_suffix-take s t h))
    ∙ ap (λ r. trim_suffix s t ++ r) (has_suffix-drop s t h)

-- The bytes of a code point.
unfoldable pub utf8 : ℕ → List ℕ
utf8 c =
    if ltb c 0x80
    then c ∷ []
    else if ltb c 0x800
    then (0xC0 + c / 64) ∷ (0x80 + c % 64) ∷ []
    else if ltb c 0x10000
    then (0xE0 + c / 4096) ∷ (0x80 + c / 64 % 64) ∷ (0x80 + c % 64) ∷ []
    else (0xF0 + c / 262144) ∷ (0x80 + c / 4096 % 64) ∷ (0x80 + c / 64 % 64) ∷ (0x80 + c % 64) ∷ []

-- The string as Go stores it.
unfoldable pub bytes : Text → List ℕ
bytes [] = []
bytes (c ∷ s) = utf8 c ++ bytes s

-- `len(s)`
abbrev pub byte_length : Text → ℕ
byte_length s = length (bytes s)

pub byte_length-append : (s t : Text) → byte_length (s ++ t) ≡ byte_length s + byte_length t
unfolding bytes
byte_length-append [] t = omega arith
byte_length-append (c ∷ s) t = omega (
  arith,
  byte_length-append s t,
  length-append (utf8 c) (bytes s),
  length-append (utf8 c) (bytes (s ++ t)),
)

utf8_pos : (c : ℕ) → 1 ≤ length (utf8 c)
unfolding utf8
utf8_pos c = ground arith

pub length-le-byte_length : (s : Text) → length s ≤ byte_length s
unfolding bytes
length-le-byte_length [] = omega arith
length-le-byte_length (c ∷ s) =
    omega (arith, length-le-byte_length s, utf8_pos c, length-append (utf8 c) (bytes s))
