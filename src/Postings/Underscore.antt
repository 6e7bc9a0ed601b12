-- ===== src/Postings/Underscore.antt =====
-- A word with an underscore.
use monocle.Prelude.{
  ℕ, ◌≡◌, refl, sym, ◌∙◌, ap, inl, Option, none, some, Option-cases, inr, [], ◌∷◌, ◌++◌,
  drop-append_length, append_assoc,
}
use monocle.Prelude.Maybe.{◌>>=◌}
use monocle.Prelude.Text.{Text, codes}
use monocle.Prelude.Hex.{hex, from_hex, decode_hex}
use monocle.Store.{Store, IsStore, Failure, bad_hex}
use monocle.Store.Gather.{gather-error, lookup-scan_prefix}
use monocle.Postings.{Json, word_prefix, word_key, decode_posting, get_documents_by_word}

abbrev nothing : Option Text
nothing = none

last_fails : (a b : Option ℕ) → (a >>= λ hi. b >>= λ lo. nothing) ≡ nothing
last_fails none b = refl
last_fails (some hi) none = refl
last_fails (some hi) (some lo) = refl

-- No text with an underscore is hexadecimal.
decode_hex-underscore : (s t : Text) → decode_hex (s ++ (b'_' ∷ t)) ≡ none
unfolding decode_hex from_hex
decode_hex-underscore [] [] = refl
decode_hex-underscore [] (d ∷ t) = refl
decode_hex-underscore (c ∷ []) t = elim (Option-cases (from_hex c)) [
  | inl bad ↦ rw (decode_hex, bad)
  | inr (hi, e) ↦ rw (decode_hex, e)
]
decode_hex-underscore (c ∷ d ∷ s) t =
    rw (decode_hex-underscore s t) (last_fails (from_hex c) (from_hex d))

split_key :
    (word r id : Text)
    → word_key (word ++ (b'_' ∷ r)) id ≡ word_prefix word ++ (r ++ (b'_' ∷ hex id))
unfolding word_key word_prefix
split_key word r id =
    ap (λ s. codes "ri:" ++ s)
      (append_assoc word (b'_' ∷ r) (b'_' ∷ hex id)
        ∙ sym (append_assoc word (b'_' ∷ []) (r ++ (b'_' ∷ hex id))))

module _ (Db : Type 0) (store : Store Db) (json : Json) (lawful : IsStore Db store) where
  decode_posting-underscore :
      (word r id value : Text)
      → decode_posting Db store json word (word_prefix word ++ (r ++ (b'_' ∷ hex id))) value
        ≡ inl bad_hex
  unfolding decode_posting
  decode_posting-underscore word r id value = rw (
    decode_posting,
    drop-append_length (word_prefix word) (r ++ (b'_' ∷ hex id)),
    decode_hex-underscore r (hex id),
  )

  -- Where a word with an underscore is stored for some document, a query for the part before the underscore returns an
  -- error.
  pub get_documents_by_word-error :
      (word r id value : Text) (db : Db)
      → store.get (word_key (word ++ (b'_' ∷ r)) id) db ≡ some value
      → (e : Failure) × ((get_documents_by_word Db store json word db).1 ≡ some e)
  unfolding get_documents_by_word
  get_documents_by_word-error word r id value db stored =
      gather-error (decode_posting Db store json word) (store.scan (word_prefix word) db) []
        (word_prefix word ++ (r ++ (b'_' ∷ hex id))) value bad_hex
        (lookup-scan_prefix Db store lawful (word_prefix word) (r ++ (b'_' ∷ hex id)) db
          ∙ ap (λ k. store.get k db) (sym (split_key word r id))
          ∙ stored)
        (decode_posting-underscore word r id value)
