-- ===== src/Tokenizer/Fragment.antt =====
-- `fragmentTokenize` cuts a text, loses nothing, and cuts only where it must.
use mathlib.Core.List.{cons-ne-nil}
use monocle.Prelude.{
  ℕ, ◌≡◌, ◌≢◌, refl, ◌∙◌, ap, ◌⊎◌, inl, inr, true, false, List, [], ◌∷◌, ◌++◌, append_assoc, All,
  All-append, Bool-cases, arith,
}
use monocle.Prelude.Text.{Text}
use monocle.Prelude.Unicode.{Unicode, lower}
use monocle.Tokenizer.{
  TokenType, word, number, whitespace, symbol, alphanumeric, unknown, email_addr, url_addr,
  ip_v4_addr, Token, same_type, extends, extended, rune_type, cut_token, scan, fragment_tokenize,
}

-- The texts of the tokens, one behind the other.
abbrev pub spelled : List Token → Text
spelled [] = []
spelled (t ∷ ts) = t.value ++ spelled ts

same_type_sound : (a b : TokenType) → same_type a b ≡ true → a ≡ b
same_type_sound a b h = ground arith

module _ (u : Unicode) where
  -- Some rune of the text has the type.
  abbrev pub Has : TokenType → Text → Type 0
  Has ty v =
      (before : Text) × (r : ℕ) × (after : Text) × (v ≡ before ++ r ∷ after) × (rune_type u r ≡ ty)

  -- What a token's type says of its runes.
  abbrev pub Describes : TokenType → Text → Type 0
  Describes alphanumeric v =
      All (λ r. (rune_type u r ≡ word) ⊎ (rune_type u r ≡ number)) v × Has word v × Has number v
  Describes ty v = All (λ r. rune_type u r ≡ ty) v

  rune_type-ne-alphanumeric : (r : ℕ) → rune_type u r ≢ alphanumeric
  unfolding rune_type
  rune_type-ne-alphanumeric r h = ground arith

  Describes-one :
      (ty : TokenType) (r : ℕ) → ty ≢ alphanumeric → rune_type u r ≡ ty → Describes ty (r ∷ [])
  Describes-one alphanumeric r n h = absurd (n refl)
  Describes-one _ r n h = (h, tt)

  Has-append : (ty : TokenType) (v w : Text) → Has ty v → Has ty (v ++ w)
  Has-append ty v w (before, r, after, e, h) =
      (before, r, after ++ w, ap (λ x. x ++ w) e ∙ append_assoc before (r ∷ after) w, h)

  Has-last : (ty : TokenType) (v : Text) (r : ℕ) → rune_type u r ≡ ty → Has ty (v ++ r ∷ [])
  Has-last ty v r h = (v, r, [], refl, h)

  mixed : {A B : ℕ → Type 0} (v : Text) → All A v → ((r : ℕ) → A r → B r) → All B v
  mixed [] h f = tt
  mixed (r ∷ v) h f = (f r h.0, mixed v h.1 f)

  Describes-same :
      (ty : TokenType) (v : Text) (r : ℕ)
      → ty ≢ alphanumeric
      → Describes ty v
      → rune_type u r ≡ ty
      → Describes ty (v ++ r ∷ [])
  Describes-same alphanumeric v r n d h = absurd (n refl)
  Describes-same word v r n d h = All-append _ v (r ∷ []) d (h, tt)
  Describes-same _ v r n d h = All-append _ v (r ∷ []) d (h, tt)

  -- A rune that extends the buffer keeps its description.
  Describes-extended :
      (ty rt : TokenType) (b : ℕ) (v : Text) (r : ℕ)
      → extends ty rt ≡ true
      → Describes ty (b ∷ v)
      → rune_type u r ≡ rt
      → Describes (extended ty rt) (b ∷ v ++ r ∷ [])
  Describes-extended word number b v r x d h = (
    All-append _ (b ∷ v) (r ∷ []) (mixed (b ∷ v) d (λ r h. inl h)) (inr h, tt),
    ([], b, v ++ r ∷ [], refl, d.0),
    Has-last number (b ∷ v) r h,
  )
  Describes-extended number word b v r x d h = (
    All-append _ (b ∷ v) (r ∷ []) (mixed (b ∷ v) d (λ r h. inr h)) (inl h, tt),
    Has-last word (b ∷ v) r h,
    ([], b, v ++ r ∷ [], refl, d.0),
  )
  Describes-extended alphanumeric word b v r x d h = (
    All-append _ (b ∷ v) (r ∷ []) d.0 (inl h, tt),
    Has-append word (b ∷ v) (r ∷ []) d.1,
    Has-append number (b ∷ v) (r ∷ []) d.2,
  )
  Describes-extended alphanumeric number b v r x d h = (
    All-append _ (b ∷ v) (r ∷ []) d.0 (inr h, tt),
    Has-append word (b ∷ v) (r ∷ []) d.1,
    Has-append number (b ∷ v) (r ∷ []) d.2,
  )
  Describes-extended alphanumeric alphanumeric b v r x d h = absurd (rune_type-ne-alphanumeric r h)
  Describes-extended word word b v r x d h = Describes-same word (b ∷ v) r (cc) d h
  Describes-extended number number b v r x d h = Describes-same number (b ∷ v) r (cc) d h
  Describes-extended whitespace whitespace b v r x d h =
      Describes-same whitespace (b ∷ v) r (cc) d h
  Describes-extended symbol symbol b v r x d h = Describes-same symbol (b ∷ v) r (cc) d h
  Describes-extended unknown unknown b v r x d h = Describes-same unknown (b ∷ v) r (cc) d h
  Describes-extended email_addr email_addr b v r x d h =
      Describes-same email_addr (b ∷ v) r (cc) d h
  Describes-extended url_addr url_addr b v r x d h = Describes-same url_addr (b ∷ v) r (cc) d h
  Describes-extended ip_v4_addr ip_v4_addr b v r x d h =
      Describes-same ip_v4_addr (b ∷ v) r (cc) d h
  Describes-extended _ _ b v r x d h = cc

  -- A token is not empty, its type describes it, and the next one could not have extended it.
  abbrev pub IsLexical : List Token → Type 0
  IsLexical [] = Unit
  IsLexical (t ∷ []) = (t.value ≢ []) × Describes t.type t.value
  IsLexical (t ∷ t' ∷ ts) =
      (t.value ≢ [])
      × Describes t.type t.value
      × ((r : ℕ) × (v : Text) × (t'.value ≡ r ∷ v) × (extends t.type (rune_type u r) ≡ false))
      × IsLexical (t' ∷ ts)

  module _ (global : ℕ) where
    -- One round with a rune, by the test.
    scan_more :
        (ty : TokenType) (b : ℕ) (v : Text) (r : ℕ) (runes : Text)
        → extends ty (rune_type u r) ≡ true
        → scan u global ty (b ∷ v) (r ∷ runes)
          ≡ scan u global (extended ty (rune_type u r)) (b ∷ v ++ r ∷ []) runes
    unfolding scan
    scan_more ty b v r runes h = ground arith

    scan_next :
        (ty : TokenType) (b : ℕ) (v : Text) (r : ℕ) (runes : Text)
        → extends ty (rune_type u r) ≡ false
        → scan u global ty (b ∷ v) (r ∷ runes)
          ≡ cut_token u global ty (b ∷ v) ∷ scan u global (rune_type u r) (r ∷ []) runes
    unfolding scan
    scan_next ty b v r runes h = ground arith

    scan_start :
        (ty : TokenType) (r : ℕ) (runes : Text)
        → scan u global ty [] (r ∷ runes) ≡ scan u global (rune_type u r) (r ∷ []) runes
    unfolding scan
    scan_start ty r runes = refl

    spelled-scan :
        (ty : TokenType) (buffer runes : Text)
        → spelled (scan u global ty buffer runes) ≡ buffer ++ runes
    spelled-scan ty [] [] = unfold scan in refl
    spelled-scan ty (b ∷ v) [] = unfold scan in ap (◌∷◌ b) refl
    spelled-scan ty [] (r ∷ runes) =
        rw (scan_start ty r runes) (spelled-scan (rune_type u r) (r ∷ []) runes)
    spelled-scan ty (b ∷ v) (r ∷ runes) = elim (Bool-cases (extends ty (rune_type u r))) [
      | inl more ↦ rw (scan_more ty b v r runes more) (
          spelled-scan (extended ty (rune_type u r)) (b ∷ v ++ r ∷ []) runes
          ∙ append_assoc (b ∷ v) (r ∷ []) runes)
      | inr next ↦
          rw (scan_next ty b v r runes next)
            (ap (λ x. b ∷ v ++ x) (spelled-scan (rune_type u r) (r ∷ []) runes))
    ]

    -- The token that a scan gives first begins with the buffer.
    abbrev Begins : ℕ → List Token → Type 0
    Begins b [] = ⊥
    Begins b (t ∷ ts) = (v : Text) × (t.value ≡ b ∷ v)

    scan-Begins :
        (ty : TokenType) (b : ℕ) (v runes : Text) → Begins b (scan u global ty (b ∷ v) runes)
    scan-Begins ty b v [] = unfold scan in (v, refl)
    scan-Begins ty b v (r ∷ runes) = elim (Bool-cases (extends ty (rune_type u r))) [
      | inl more ↦
          rw (scan_more ty b v r runes more)
            (scan-Begins (extended ty (rune_type u r)) b (v ++ r ∷ []) runes)
      | inr next ↦ rw (scan_next ty b v r runes next) (v, refl)
    ]

    -- A token in front of those of the next rune.
    IsLexical-cons :
        (t : Token) (ts : List Token) (r : ℕ)
        → t.value ≢ []
        → Describes t.type t.value
        → extends t.type (rune_type u r) ≡ false
        → Begins r ts
        → IsLexical ts
        → IsLexical (t ∷ ts)
    IsLexical-cons t [] r n d x b l = absurd b
    IsLexical-cons t (t' ∷ ts) r n d x (v, e) l = (n, d, (r, v, e, x), l)

    scan-IsLexical :
        (ty : TokenType) (b : ℕ) (v runes : Text)
        → Describes ty (b ∷ v)
        → IsLexical (scan u global ty (b ∷ v) runes)
    scan-IsLexical ty b v [] d = unfold scan in (cons-ne-nil b v, d)
    scan-IsLexical ty b v (r ∷ runes) d = elim (Bool-cases (extends ty (rune_type u r))) [
      | inl more ↦ rw (scan_more ty b v r runes more) (
          scan-IsLexical (extended ty (rune_type u r)) b (v ++ r ∷ []) runes
            (Describes-extended ty (rune_type u r) b v r more d refl))
      | inr next ↦ rw (scan_next ty b v r runes next) (
          IsLexical-cons (cut_token u global ty (b ∷ v)) _ r (cons-ne-nil b v) d next
            (scan-Begins (rune_type u r) r [] runes)
            (scan-IsLexical (rune_type u r) r [] runes
              (Describes-one (rune_type u r) r (rune_type-ne-alphanumeric r) refl)))
    ]

    scan-IsLexical_start : (runes : Text) → IsLexical (scan u global unknown [] runes)
    scan-IsLexical_start [] = unfold scan in tt
    scan-IsLexical_start (r ∷ runes) = rw (scan_start unknown r runes) (
        scan-IsLexical (rune_type u r) r [] runes
          (Describes-one (rune_type u r) r (rune_type-ne-alphanumeric r) refl))

-- The tokens of a fragment spell the lower-cased fragment: nothing is lost, added or moved.
pub spelled-fragment_tokenize :
    (u : Unicode) (global : ℕ) (s : Text) → spelled (fragment_tokenize u global s) ≡ lower u s
unfolding fragment_tokenize
spelled-fragment_tokenize u global s = spelled-scan u global unknown [] (lower u s)

-- Every token of a fragment is non-empty and its type describes its runes (letters, digits, both, and
-- so on), and no token could have been extended by the first rune of the next one.
pub fragment_tokenize-IsLexical :
    (u : Unicode) (global : ℕ) (s : Text) → IsLexical u (fragment_tokenize u global s)
unfolding fragment_tokenize
fragment_tokenize-IsLexical u global s = scan-IsLexical_start u global (lower u s)
