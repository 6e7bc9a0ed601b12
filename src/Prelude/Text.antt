-- ===== src/Prelude/Text.antt =====
-- Go strings as sequences of code points (valid UTF-8), and what `strings` offers on them.
use Prim.Native.Nat.{ℕ}
use Prim.Native.Char.{code}
use Prim.Native.String.{String}
use mathlib.Core.Path.{◌≡◌, refl, sym, ◌∙◌}
use mathlib.Core.Logic.{◌↔◌}
use mathlib.Core.Bool.{Bool, true, false, ◌&&◌}
use mathlib.Core.List.{List, [], ◌∷◌, ◌++◌}
use native.Mathlib.Omega.{arith}
use monocle.Prelude.Tests.{◌==◌}

abbrev pub Text : Type 0
Text = List ℕ

abbrev pub codes : String → Text
codes String.[] = []
codes (String.◌∷◌ c s) = code c ∷ codes s

unfoldable pub eqb : Text → Text → Bool
eqb [] [] = true
eqb [] (y ∷ t) = false
eqb (x ∷ s) [] = false
eqb (x ∷ s) (y ∷ t) = x == y && eqb s t

pub eqb_refl : (s : Text) → eqb s s ≡ true
unfolding eqb
eqb_refl [] = refl
eqb_refl (x ∷ s) = ground (arith, eqb_refl s)

pub eqb_sound : (s t : Text) → eqb s t ≡ true → s ≡ t
unfolding eqb
eqb_sound [] [] h = refl
eqb_sound [] (y ∷ t) h = ground arith
eqb_sound (x ∷ s) [] h = ground arith
eqb_sound (x ∷ s) (y ∷ t) h = ground (arith, eqb_sound s t)

eqb_complete : (s t : Text) → s ≡ t → eqb s t ≡ true
eqb_complete s t e = rw e (eqb_refl t)

pub eqb_iff : (s t : Text) → (eqb s t ≡ true) ↔ (s ≡ t)
eqb_iff s t = (eqb_sound s t, eqb_complete s t)

-- `strings.HasPrefix(s, prefix)`
unfoldable pub has_prefix : Text → Text → Bool
has_prefix s [] = true
has_prefix [] (y ∷ t) = false
has_prefix (x ∷ s) (y ∷ t) = x == y && has_prefix s t

has_prefix_sound : (s t : Text) → has_prefix s t ≡ true → (rest : Text) × (s ≡ t ++ rest)
unfolding has_prefix
has_prefix_sound s [] h = (s, refl)
has_prefix_sound [] (y ∷ t) h = ground arith
has_prefix_sound (x ∷ s) (y ∷ t) h =
    let (rest, e) = has_prefix_sound s t (ground arith) in (rest, ground arith)

has_prefix_nil : (s : Text) → has_prefix s [] ≡ true
unfolding has_prefix
has_prefix_nil [] = refl
has_prefix_nil (x ∷ s) = refl

has_prefix-append : (t rest : Text) → has_prefix (t ++ rest) t ≡ true
unfolding has_prefix
has_prefix-append [] rest = has_prefix_nil rest
has_prefix-append (y ∷ t) rest = ground (arith, has_prefix-append t rest)

has_prefix_complete : (s t : Text) → (rest : Text) × (s ≡ t ++ rest) → has_prefix s t ≡ true
has_prefix_complete s t (rest, e) = rw e (has_prefix-append t rest)

pub has_prefix_iff : (s t : Text) → (has_prefix s t ≡ true) ↔ ((rest : Text) × (s ≡ t ++ rest))
has_prefix_iff s t = (has_prefix_sound s t, has_prefix_complete s t)

pub eqb-append : (t a b : Text) → eqb (t ++ a) (t ++ b) ≡ eqb a b
unfolding eqb
eqb-append [] a b = refl
eqb-append (c ∷ t) a b = ground (arith, eqb-append t a b)

pub append_cancel : (t a b : Text) → t ++ a ≡ t ++ b → a ≡ b
append_cancel t a b e = eqb_sound a b (sym (eqb-append t a b) ∙ eqb_complete (t ++ a) (t ++ b) e)
