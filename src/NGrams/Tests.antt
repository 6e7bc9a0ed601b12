-- ===== src/NGrams/Tests.antt =====
-- The n-grams of small words, written to a list of entries.
use monocle.Prelude.{
  inr, zero, suc, ap, sym, ◌∙◌, map, append-nil, append_assoc, ℕ, ◌+◌, ◌≤◌, ◌≡◌, ◌↔◌, refl, true,
  false, List, [], ◌∷◌, ◌++◌, Option, some, length, take, drop, arith,
}
use monocle.Prelude.Text.{Text, codes, eqb, has_prefix}
use monocle.Prelude.Assoc.{lookup}
use monocle.Prelude.Decimal.{digits}
use monocle.Prelude.Unicode.{ascii, lower}
use monocle.NGrams.{
  is_in, windows, extract_n_grams, IndexRepository, buffer_of, count_of, zeros, chunk_key,
  flush_all, index_n_grams,
}
use monocle.Store.Memory.{under, Memory, memory, empty, memory-IsStore, memory-IsReliable}
use monocle.NGrams.Lookup.{n_gram_prefix, get_words_by_n_gram}
use monocle.NGrams.Lookup.Found.{Chunks, Offered, get_words_by_n_gram-IsDistinct}
use monocle.NGrams.Windows.{IsDistinct, extract_n_grams-IsDistinct}
use monocle.NGrams.Flushed.{chunks_of, flush_all-Numbers}
use monocle.NGrams.Growth.{fed, Grows, IsSmall}
use monocle.NGrams.Conserved.{index_n_grams-IsSmall}

abbrev Db : Type 0
Db = List (Text × Text)

abbrev set : Text → Text → Db → Option Db
set key value db = some ((key, value) ∷ db)

abbrev marshal : List Text → Text
marshal [] = []
marshal (w ∷ words) = w ++ (b',' ∷ marshal words)

abbrev fresh : IndexRepository Db
fresh = record { db = []; word_buffer = []; counts = [] }

banana : extract_n_grams ascii (codes "Banana") 3 ≡ codes "ban" ∷ codes "ana" ∷ codes "nan" ∷ []
unfolding extract_n_grams windows is_in eqb
banana = refl

twelfth : chunk_key (codes "ana") 12 ≡ codes "ng:ana:0012"
unfolding chunk_key digits zeros
twelfth = refl

extract_n_grams-IsDistinct_example :
    IsDistinct (extract_n_grams ascii (codes "Banana") 3)
    × ((g : Text)
        → (is_in g (extract_n_grams ascii (codes "Banana") 3) ≡ true) ↔ (
            (j : ℕ) × (j + 3 ≤ length (lower ascii (codes "Banana")))
            × (g ≡ take 3 (drop j (lower ascii (codes "Banana"))))))
extract_n_grams-IsDistinct_example = extract_n_grams-IsDistinct ascii (codes "Banana") 3

-- A form of a list of words that can be read back: each code one higher, and 0 behind each word.
abbrev joined : List Text → Text
joined [] = []
joined (w ∷ words) = map suc w ++ zero ∷ joined words

abbrev split_words : Text → Text → List Text
split_words word [] = []
split_words word (zero ∷ s) = word ∷ split_words [] s
split_words word (suc c ∷ s) = split_words (word ++ c ∷ []) s

split_words-map :
    (v w t : Text) → split_words v (map suc w ++ zero ∷ t) ≡ (v ++ w) ∷ split_words [] t
split_words-map v [] t = ap (λ x. x ∷ split_words [] t) (sym (append-nil v))
split_words-map v (c ∷ w) t =
    split_words-map (v ++ c ∷ []) w t ∙ ap (λ x. x ∷ split_words [] t) (append_assoc v (c ∷ []) w)

split_words-joined : (words : List Text) → split_words [] (joined words) ≡ words
split_words-joined [] = refl
split_words-joined (w ∷ words) =
    split_words-map [] w (joined words) ∙ ap (◌∷◌ w) (split_words-joined words)

abbrev read_words : Text → Option (List Text)
read_words s = some (split_words [] s)

abbrev new : IndexRepository Memory
new = record { db = empty; word_buffer = []; counts = [] }

new-IsSmall : IsSmall Memory memory joined read_words new
unfolding buffer_of lookup
new-IsSmall = λ ng. omega arith

-- More words with one n-gram than a chunk has.
abbrev copies : ℕ → List Text
copies zero = codes "Banana" ∷ []
copies (suc n) = codes "nan" ∷ copies n

index_n_grams-IsSmall_example :
    (after : IndexRepository Memory) × (index_n_grams Memory memory.set joined ascii 3
        (copies 120)
        new
      ≡ (after, false))
    × IsSmall Memory memory joined read_words after
    × ((ng : Text)
        → Grows Memory memory joined read_words ng (fed ascii 3 ng (copies 120)) new after)
index_n_grams-IsSmall_example =
    index_n_grams-IsSmall Memory memory joined read_words memory-IsStore memory-IsReliable
      (λ words. ap some (split_words-joined words)) ascii 3 (copies 120) new new-IsSmall

abbrev two_buffers : List (Text × List Text)
two_buffers = (codes "ana", codes "Banana" ∷ []) ∷ (codes "nan", []) ∷ []

flush_all-Numbers_example :
    ((flush_all Db set marshal two_buffers fresh).word_buffer ≡ [])
    × ((ng : Text)
        → count_of ng (flush_all Db set marshal two_buffers fresh).counts
          ≡ count_of ng fresh.counts + chunks_of (buffer_of ng two_buffers))
flush_all-Numbers_example =
    flush_all-Numbers Db set marshal two_buffers fresh (unfold is_in eqb in (refl, (refl, tt)))

abbrev chunks : Db
chunks = (codes "ng:ana:0001", codes "banana") ∷ (codes "ng:nan:0001", codes "banana") ∷ []

abbrev whole : Text → Option (List Text)
whole value = some (value ∷ [])

one_chunk : (key : Text) → Chunks Db under whole ((key, codes "banana") ∷ []) (codes "banana" ∷ [])
one_chunk key = Chunks.chunk key (codes "banana") (codes "banana" ∷ []) refl Chunks.none_left

Offered-twice :
    Offered Db under whole chunks
      (codes "ana" ∷ codes "nan" ∷ [])
      (codes "banana" ∷ codes "banana" ∷ [])
unfolding n_gram_prefix has_prefix
Offered-twice =
    Offered.n_gram (codes "ana") (codes "banana" ∷ []) (one_chunk (codes "ng:ana:0001")) (
      Offered.n_gram (codes "nan") (codes "banana" ∷ []) (one_chunk (codes "ng:nan:0001"))
        Offered.all_read)

get_words_by_n_gram-IsDistinct_example :
    (result : List Text) × (get_words_by_n_gram Db under whole ascii (codes "anan") 3 chunks
      ≡ inr result)
    × IsDistinct result
    × ((w : Text) → is_in w result ≡ is_in w (codes "banana" ∷ codes "banana" ∷ []))
unfolding extract_n_grams windows is_in eqb
get_words_by_n_gram-IsDistinct_example =
    get_words_by_n_gram-IsDistinct Db under whole ascii (codes "anan") 3 chunks
      (codes "banana" ∷ codes "banana" ∷ []) Offered-twice
