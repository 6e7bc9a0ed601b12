-- ===== src/Documents/Tests.antt =====
-- Documents in the store in memory. The JSON of the tests leaves the vectors out.
use monocle.Prelude.{
  ◌≡◌, refl, sym, ap, ◌∙◌, inr, false, Option, none, some, [], ◌∷◌, ◌++◌, length, take, drop,
  if◌then◌else◌, take-append_length, drop-append_length,
}
use monocle.Prelude.Assoc.{lookup, insert}
use monocle.Prelude.Text.{Text, codes, eqb, has_prefix}
use monocle.Store.{Failure}
use monocle.Store.Memory.{Memory, memory, empty, memory-IsStore, memory-IsReliable}
use monocle.Indexer.{Document}
use monocle.Documents.{
  document_key, document_key_prefix, urls_key, Payload, Json, IsJson, returned, document_to_bytes,
  bytes_to_document, update, save_document, get_document_by_id, read_documents, get_all_documents,
  get_documents_count, sum_counts, get_avg_len, check_content, index_urls_by_hash,
  get_page_urls_by_hash,
}
use monocle.Documents.RoundTrip.{
  get_document_by_id-save_document, get_page_urls_by_hash-index_urls_by_hash,
}
use monocle.Documents.Listing.{save_all, get_avg_len-save_all}
use monocle.Documents.Content.{IsUnmarked, check_content-IsUnmarked}

program : Unit {0}
unfolding document_key document_key_prefix urls_key document_to_bytes bytes_to_document update
    save_document get_document_by_id read_documents get_all_documents get_documents_count sum_counts
    get_avg_len check_content index_urls_by_hash get_page_urls_by_hash lookup insert eqb has_prefix
program = tt

abbrev Vectors : Type 0
Vectors = Unit {0}

-- The length of the id, the word count, the id and the URL.
abbrev json : Json Vectors
json = record {
  marshal = λ p. some (length p.id ∷ p.word_count ∷ (p.id ++ p.url));
  unmarshal = λ body. elim body [
    | n ∷ count ∷ rest ↦
        some (record { id = take n rest; url = drop n rest; word_count = count; vec = tt })
    | other ↦ none
  ];
}

reread : Option Text → Option (Payload Vectors)
reread none = none
reread (some body) = json.unmarshal body

json-IsJson : IsJson Vectors json
unfolding reread
json-IsJson p body e =
    ap reread (sym e) ∙ rw (take-append_length p.id p.url, drop-append_length p.id p.url)

abbrev page : Document Vectors
page = record {
  id = codes "0123456789abcdef0123456789abcdef";
  url = codes "https://a.io";
  word_count = 7;
  word_vec = tt;
}

abbrev body : Text
body = 32 ∷ 7 ∷ codes "0123456789abcdef0123456789abcdefhttps://a.io"

counted_but_not_listed :
    get_documents_count Memory Vectors memory json
      (save_all Memory Vectors memory json memory-IsStore (page ∷ []) empty)
    ≡ 1
unfolding program save_all
counted_but_not_listed = refl

get_document_by_id-save_document_example :
    (after : Memory) × (save_document Memory Vectors memory json page empty ≡ (after, none))
    × ((id : Text)
        → get_document_by_id Memory Vectors memory json id after ≡ (
            if eqb page.id id
            then inr page
            else get_document_by_id Memory Vectors memory json id empty))
    × ((hash : Text)
        → get_page_urls_by_hash Memory Vectors memory json hash after
          ≡ get_page_urls_by_hash Memory Vectors memory json hash empty)
unfolding document_to_bytes
get_document_by_id-save_document_example =
    get_document_by_id-save_document Memory Vectors memory json memory-IsStore page body empty
      memory-IsReliable json-IsJson refl refl

get_page_urls_by_hash-index_urls_by_hash_example :
    (after : Memory) × (index_urls_by_hash Memory Vectors memory json page.id (codes "urls") empty
      ≡ (after, none))
    × ((h : Text)
        → get_page_urls_by_hash Memory Vectors memory json h after ≡ (
            if eqb page.id h
            then inr (codes "urls")
            else get_page_urls_by_hash Memory Vectors memory json h empty))
    × ((id : Text)
        → get_document_by_id Memory Vectors memory json id after
          ≡ get_document_by_id Memory Vectors memory json id empty)
get_page_urls_by_hash-index_urls_by_hash_example =
    get_page_urls_by_hash-index_urls_by_hash Memory Vectors memory json memory-IsStore page.id
      (codes "urls") empty memory-IsReliable

get_avg_len-save_all_example :
    (get_all_documents Memory Vectors memory json
        (save_all Memory Vectors memory json memory-IsStore (page ∷ []) empty)
      ≡ inr [])
    × (get_avg_len Memory Vectors memory json
          (save_all Memory Vectors memory json memory-IsStore (page ∷ []) empty)
        ≡ inr (0, 0))
get_avg_len-save_all_example =
    get_avg_len-save_all Memory Vectors memory json memory-IsStore (page ∷ []) empty
      (unfold has_prefix in (refl, tt)) (λ rest. unfold lookup in refl)

check_content-IsUnmarked_example :
    (after : Memory) × (err : Option Failure) × (check_content Memory Vectors memory json
        (codes "1")
        page.id
        empty
      ≡ (after, returned false none err))
    × IsUnmarked Memory Vectors memory json memory-IsStore after
check_content-IsUnmarked_example =
    check_content-IsUnmarked Memory Vectors memory json memory-IsStore (codes "1") page.id empty
      refl (λ hash rest size. unfold lookup in refl)
