-- ===== src/NGrams/Lookup/Found.antt =====
-- GetWordsByNGram: the words of all chunks of all n-grams, each once.
use monocle.Prelude.{
  ℕ, ◌≡◌, refl, sym, ◌∙◌, ap, inl, inr, ◌||◌, true, false, Bool-cases, Option, some, List, [], ◌∷◌,
  ◌++◌, arith, if◌then◌else◌, append_assoc, append-nil,
}
use mathlib.Core.Path.{subst}
use monocle.Prelude.Text.{Text, eqb, eqb_iff}
use monocle.Prelude.Unicode.{Unicode}
use monocle.NGrams.{is_in, extract_n_grams}
use monocle.NGrams.Windows.{IsDistinct}
use monocle.NGrams.Lookup.{
  Words, include, n_gram_prefix, read_chunks, read_n_grams, get_words_by_n_gram,
}

is_in-append : (w : Text) (xs ys : List Text) → is_in w (xs ++ ys) ≡ (is_in w xs || is_in w ys)
unfolding is_in
is_in-append w [] ys = refl
is_in-append w (x ∷ xs) ys = ground (arith, is_in-append w xs ys)

snoc-IsDistinct :
    (x : Text) (xs : List Text) → IsDistinct xs → is_in x xs ≡ false → IsDistinct (xs ++ (x ∷ []))
unfolding is_in
snoc-IsDistinct x [] h new = (refl, tt)
snoc-IsDistinct x (y ∷ xs) (fresh, h) new = (
  is_in-append y xs (x ∷ []) ∙ ground (arith, fresh, new, eqb_iff x y, eqb_iff y x),
  snoc-IsDistinct x xs h (ground (arith, new)),
)

-- The words that are found are the offered ones, each once.
pub record Finds (offered : List Text) (found : Words) : Type 0 where
  pub distinct : IsDistinct found.result
  pub included : (w : Text) → is_in w found.already_inc ≡ is_in w offered
  pub listed : (w : Text) → is_in w found.result ≡ is_in w offered

include-old :
    (w : Text) (words : List Text) (found : Words)
    → is_in w found.already_inc ≡ true
    → include (w ∷ words) found ≡ include words found
unfolding include
include-old w words found h = rw (include, h)

include-new :
    (w : Text) (words : List Text) (found : Words)
    → is_in w found.already_inc ≡ false
    → include (w ∷ words) found
      ≡ include words
          (record { already_inc = w ∷ found.already_inc; result = found.result ++ (w ∷ []) })
unfolding include
include-new w words found h = rw (include, h)

is_in-snoc :
    (v w : Text) (xs : List Text)
    → is_in v (xs ++ (w ∷ [])) ≡ (if eqb w v then true else is_in v xs)
unfolding is_in
is_in-snoc v w xs = is_in-append v xs (w ∷ []) ∙ ground arith

is_in-cons :
    (v w : Text) (xs : List Text) → is_in v (w ∷ xs) ≡ (if eqb w v then true else is_in v xs)
unfolding is_in
is_in-cons v w xs = refl

is_in_same : (v w : Text) (xs : List Text) → eqb w v ≡ true → is_in w xs ≡ is_in v xs
is_in_same v w xs same = ap (λ x. is_in x xs) ((eqb_iff w v).0 same)

-- One more offered word: one that was offered before, and one that was not.
Finds-old :
    (offered : List Text) (found : Words) (w : Text)
    → is_in w found.already_inc ≡ true
    → Finds offered found
    → Finds (offered ++ (w ∷ [])) found
Finds-old offered found w old f = record {
  distinct = f.distinct;
  included = λ v. f.included v ∙ stays v;
  listed = λ v. f.listed v ∙ stays v;
}
  where
    stays : (v : Text) → is_in v offered ≡ is_in v (offered ++ (w ∷ []))
    stays v = sym (
        is_in-snoc v w offered ∙ elim (Bool-cases (eqb w v)) [
          | inl same ↦ rw same (sym old ∙ f.included w ∙ is_in_same v w offered same)
          | inr other ↦ rw other
        ])

Finds-new :
    (offered : List Text) (found : Words) (w : Text)
    → is_in w found.already_inc ≡ false
    → Finds offered found
    → Finds
        (offered ++ (w ∷ []))
        (record { already_inc = w ∷ found.already_inc; result = found.result ++ (w ∷ []) })
Finds-new offered found w new f = record {
  distinct = snoc-IsDistinct w found.result f.distinct (f.listed w ∙ sym (f.included w) ∙ new);
  included = λ v.
      is_in-cons v w found.already_inc
      ∙ ap (λ b. if eqb w v then true else b) (f.included v)
      ∙ sym (is_in-snoc v w offered);
  listed = λ v.
      is_in-snoc v w found.result
      ∙ ap (λ b. if eqb w v then true else b) (f.listed v)
      ∙ sym (is_in-snoc v w offered);
}

include-Finds :
    (words offered : List Text) (found : Words)
    → Finds offered found
    → Finds (offered ++ words) (include words found)
include-Finds [] offered found f =
    unfold include in subst (λ o. Finds o found) (sym (append-nil offered)) f
include-Finds (w ∷ words) offered found f = elim (Bool-cases (is_in w found.already_inc)) [
  | inl old ↦ subst (Finds (offered ++ (w ∷ words))) (sym (include-old w words found old)) (
      subst (λ o. Finds o (include words found)) (append_assoc offered (w ∷ []) words)
        (include-Finds words (offered ++ (w ∷ [])) found (Finds-old offered found w old f)))
  | inr new ↦
      let found' : Words = record {
        already_inc = w ∷ found.already_inc;
        result = found.result ++ (w ∷ []);
      } in
      subst (Finds (offered ++ (w ∷ words))) (sym (include-new w words found new)) (
        subst (λ o. Finds o (include words found')) (append_assoc offered (w ∷ []) words)
          (include-Finds words (offered ++ (w ∷ [])) found' (Finds-new offered found w new f)))
]

module _ (Db : Type 0) (scan : Text → Db → List (Text × Text))
    (unmarshal : Text → Option (List Text)) where
  -- The words in the chunks of one n-gram, and of several, one after the other.
  pub data Chunks : List (Text × Text) → List Text → Type 0 where
    none_left : Chunks [] []
    chunk :
        {chunks : List (Text × Text)} {offered : List Text} (key value : Text) (words : List Text)
        → unmarshal value ≡ some words
        → Chunks chunks offered
        → Chunks ((key, value) ∷ chunks) (words ++ offered)

  pub data Offered (db : Db) : List Text → List Text → Type 0 where
    all_read : Offered db [] []
    n_gram :
        {grams : List Text} {offered : List Text} (ng : Text) (words : List Text)
        → Chunks (scan (n_gram_prefix ng) db) words
        → Offered db grams offered
        → Offered db (ng ∷ grams) (words ++ offered)

  read_chunks_step :
      (key value : Text) (words : List Text) (chunks : List (Text × Text)) (found : Words)
      → unmarshal value ≡ some words
      → read_chunks Db scan unmarshal ((key, value) ∷ chunks) found
        ≡ read_chunks Db scan unmarshal chunks (include words found)
  unfolding read_chunks
  read_chunks_step key value words chunks found h = rw (read_chunks, h)

  read_n_grams_step :
      (db : Db) (ng : Text) (grams : List Text) (found more : Words)
      → read_chunks Db scan unmarshal (scan (n_gram_prefix ng) db) found ≡ inr more
      → read_n_grams Db scan unmarshal db (ng ∷ grams) found
        ≡ read_n_grams Db scan unmarshal db grams more
  unfolding read_n_grams
  read_n_grams_step db ng grams found more h = rw (read_n_grams, h)

  read_chunks-Finds :
      (chunks : List (Text × Text)) (words offered : List Text) (found : Words)
      → Chunks chunks words
      → Finds offered found
      → (more : Words) × (read_chunks Db scan unmarshal chunks found ≡ inr more)
        × Finds (offered ++ words) more
  read_chunks-Finds [] words offered found none_left f =
      (found, unfold read_chunks in refl, subst (λ o. Finds o found) (sym (append-nil offered)) f)
  read_chunks-Finds ((key', value') ∷ chunks) all offered found
        (chunk {offered = rest} key value words read cs) f =
      let (more, run, f') =
        read_chunks-Finds chunks rest (offered ++ words) (include words found) cs
          (include-Finds words offered found f) in
      (
        more,
        read_chunks_step key value words chunks found read ∙ run,
        subst (λ o. Finds o more) (append_assoc offered words rest) f',
      )

  read_n_grams-Finds :
      (db : Db) (grams all offered : List Text) (found : Words)
      → Offered db grams all
      → Finds offered found
      → (more : Words) × (read_n_grams Db scan unmarshal db grams found ≡ inr more)
        × Finds (offered ++ all) more
  read_n_grams-Finds db [] all offered found all_read f =
      (found, unfold read_n_grams in refl, subst (λ o. Finds o found) (sym (append-nil offered)) f)
  read_n_grams-Finds db (g ∷ grams) all offered found (n_gram {offered = rest} ng words cs os) f =
      let (mid, run, f') =
        read_chunks-Finds (scan (n_gram_prefix ng) db) words offered found cs f in
      let (more, run', f'') = read_n_grams-Finds db grams rest (offered ++ words) mid os f' in
      (
        more,
        read_n_grams_step db ng grams found mid run ∙ run',
        subst (λ o. Finds o more) (append_assoc offered words rest) f'',
      )

  -- Where the chunks of the n-grams of a word can all be read, GetWordsByNGram returns no error and no word twice, and
  -- the words that it returns are those of the chunks.
  pub get_words_by_n_gram-IsDistinct :
      (u : Unicode) (word : Text) (n : ℕ) (db : Db) (offered : List Text)
      → Offered db (extract_n_grams u word n) offered
      → (result : List Text) × (get_words_by_n_gram Db scan unmarshal u word n db ≡ inr result)
        × IsDistinct result
        × ((w : Text) → is_in w result ≡ is_in w offered)
  unfolding get_words_by_n_gram
  get_words_by_n_gram-IsDistinct u word n db offered os =
      let (found, run, f) =
        read_n_grams-Finds db (extract_n_grams u word n) offered []
          (record { already_inc = []; result = [] }) os
          (unfold is_in in record { distinct = tt; included = λ w. refl; listed = λ w. refl }) in
      (found.result, rw (get_words_by_n_gram, run), f.distinct, f.listed)
