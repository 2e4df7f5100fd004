-- ===== src/Examples/Knowledge.antt =====
-- The knowledge platform on concrete documents: src/services/knowledge_platform/.
use ai_pmo_copilot.Common.{
  ℕ, zero, suc, ◌+◌, ◌-◌, ◌≤◌, ◌≡◌, refl, String, str_append, count, Option, none, some, List, [],
  ◌∷◌, ok, err, length, All, ◌⊎◌, arith, map, str_eq, if◌then◌else◌,
}
use ai_pmo_copilot.Common.Sorting.{sort_by, IsElem-of_sort_by, IsElem-sort_by}
use ai_pmo_copilot.Knowledge.Chunking.{
  chunk_text, chunks_from, chunk_size_chars, chunk_overlap_chars,
}
use ai_pmo_copilot.Knowledge.Chunking.Rejoining.{rejoined, IsChunk, chunk_text-rejoined}
use ai_pmo_copilot.Knowledge.Tables.{EmbeddingProvider, VectorIndex, IngestedDocument}
use ai_pmo_copilot.Knowledge.Repository.{ingest, index, latest_version, embedded}
use ai_pmo_copilot.Knowledge.Repository.History.{
  Request, ingest_call, index_call, perform_all, empty_store, empty_store-IsConsistent,
}
use ai_pmo_copilot.Knowledge.Queries.{similarity_search}
use ai_pmo_copilot.Knowledge.Queries.Tenancy.{IsCitedIn, similarity_search-tenancy}
use ai_pmo_copilot.Knowledge.Queries.Agreement.{AnswersAs, get_document-list_documents}
use ai_pmo_copilot.Knowledge.Repository.Indexing.{Embeds, Refuses}
use ai_pmo_copilot.Knowledge.Ingestion.{State, upload}
use ai_pmo_copilot.Knowledge.Ingestion.Uploading.{
  UploadRequest, IsUploaded, IsLeftFailed, upload-outcome,
}

-- as many lines of ten characters
abbrev minutes : ℕ → String
minutes zero = ""
minutes (suc n) = str_append "Delay: 3d " (minutes n)

abbrev unstripped : String → String
unstripped text = text

abbrev lengths : Option (List String) → List ℕ
lengths none = []
lengths (some chunks) = map count chunks

-- 600 characters are two chunks, the second from character 450 on.
chunk_lengths : lengths (chunk_text unstripped (minutes 60)) ≡ 500 ∷ 150 ∷ []
unfolding chunk_text chunks_from
chunk_lengths = refl

chunk_text-rejoined_example :
    (chunks : List String) × (chunk_text unstripped (minutes 60) ≡ some chunks)
    × (rejoined chunk_overlap_chars chunks ≡ minutes 60)
    × All (IsChunk chunk_size_chars) chunks
chunk_text-rejoined_example = chunk_text-rejoined unstripped (minutes 60)

-- a vector is one number; the distance is the difference
abbrev apart : ℕ → ℕ → ℕ
apart a b = (a - b) + (b - a)

abbrev vectors : VectorIndex ℕ ℕ
vectors = record {
  order_by_distance = λ query column rows. sort_by (λ a. apart query (column a)) rows;
  elem_order_by_distance = λ query column rows a. (
    IsElem-of_sort_by (λ x. apart query (column x)) a rows,
    IsElem-sort_by (λ x. apart query (column x)) a rows,
  );
  score = apart;
}

abbrev by_length : EmbeddingProvider ℕ
by_length = record {
  provider_name = "mock";
  model_name = "mock";
  embed = λ text. if str_eq text "" then err "empty" else ok (count text);
}

abbrev calls : List (Request ℕ)
calls =
    ingest_call 1 "risks.md" "Supplier is late" none 10
    ∷ index_call by_length 1 "c1"
    ∷ ingest_call 2 "plan.md" "Go live in May" none 11
    ∷ index_call by_length 2 "c2"
    ∷ ingest_call 1 "risks.md" "Supplier delivered" none 12
    ∷ index_call by_length 1 "c3"
    ∷ []

-- The organization 1 has two chunks, of two versions of one document.
search_length :
    length (similarity_search vectors 1 15 5 (perform_all unstripped calls empty_store)) ≡ 2
unfolding similarity_search ingest index latest_version embedded chunk_text chunks_from
search_length = refl

similarity_search-tenancy_example :
    All
      (IsCitedIn 1 (perform_all unstripped calls empty_store))
      (similarity_search vectors 1 15 5 (perform_all unstripped calls empty_store))
    × (length (similarity_search vectors 1 15 5 (perform_all unstripped calls empty_store)) ≤ 5)
similarity_search-tenancy_example = similarity_search-tenancy vectors unstripped calls 1 15 5

get_document-list_documents_example :
    (answer : Option IngestedDocument) × AnswersAs
      (perform_all unstripped calls empty_store)
      1
      1
      answer
get_document-list_documents_example = get_document-list_documents unstripped calls 1 1

abbrev before_upload : State ℕ
before_upload = record { store = empty_store; audit = [] }

abbrev request : UploadRequest
request = record {
  organization_id = 1;
  user_id = 7;
  text = "Supplier is late";
  correlation_id = "c1";
  uploaded_at = 10;
  finished_at = 11;
}

upload-outcome_example :
    (texts : List String) × (chunk_text unstripped "Supplier is late" ≡ some texts)
    × ((Embeds by_length texts
          × IsUploaded request texts before_upload (
              upload unstripped by_length 1 7 "risks.md" "Supplier is late" "c1" none 10 11
                before_upload))
        ⊎ ((message : String) × Refuses by_length texts message
            × IsLeftFailed request message before_upload (
                upload unstripped by_length 1 7 "risks.md" "Supplier is late" "c1" none 10 11
                  before_upload)))
upload-outcome_example =
    upload-outcome unstripped by_length request "risks.md" none before_upload
      empty_store-IsConsistent tt (omega arith)
