-- ===== src/Knowledge/Repository/Indexing.antt =====
-- What `index` does to a document of consistent tables.
use ai_pmo_copilot.Common.{
  ℕ, suc, ◌+◌, ◌<◌, ◌≡◌, refl, ap, String, some, List, [], ◌∷◌, ◌++◌, Result, ok, err, ◌==◌, ==_iff,
  select, select-append, All, All-imp, All-at, IsElem, at_head, in_tail, length, length-append,
  find_first-IsElem, arith, inl, inr, ◌⊎◌,
}
use ai_pmo_copilot.Knowledge.Chunking.{chunk_text}
use ai_pmo_copilot.Knowledge.Tables.{
  Document, DocumentVersion, Chunk, Store, EmbeddingProvider, KnowledgeError, embedding_failed,
  document_at,
}
use ai_pmo_copilot.Knowledge.Repository.{
  row_of, latest_version, count_chunks, embedded, with_index, index,
}
use ai_pmo_copilot.Knowledge.Repository.Consistency.{IsOwned, IsConsistent}

module _ {V : Type 0} where
  -- each text has a vector; or, in `Refuses`, one of them has none
  abbrev pub Embeds : EmbeddingProvider V → List String → Type 0
  Embeds provider texts = All (λ text. (vector : V) × (provider.embed text ≡ ok vector)) texts

  abbrev pub Refuses : EmbeddingProvider V → List String → String → Type 0
  Refuses provider texts message =
      (text : String) × IsElem text texts × (provider.embed text ≡ err message)

  -- the rows of the texts
  abbrev pub IsRows : DocumentVersion → List String → List (Chunk V) → Type 0
  IsRows v texts rows =
      (length rows ≡ length texts) × All (λ (c : Chunk V). c.document_version_id ≡ v.id) rows

  -- The rows of all texts, or what the provider raised.
  abbrev IsEmbedding :
      EmbeddingProvider V
      → DocumentVersion
      → List String
      → Result KnowledgeError (List (Chunk V))
      → Type 0
  IsEmbedding provider v texts answer =
      (Embeds provider texts × ((rows : List (Chunk V)) × (answer ≡ ok rows) × IsRows v texts rows))
      ⊎ ((message : String) × Refuses provider texts message
          × (answer ≡ err (embedding_failed message)))

  embedded-IsEmbedding :
      (provider : EmbeddingProvider V) (d : Document) (v : DocumentVersion) (n id : ℕ)
      (texts : List String)
      → IsEmbedding provider v texts (embedded provider d v n id texts)
  unfolding embedded
  embedded-IsEmbedding provider d v n id [] = inl (tt, ([], refl, (refl, tt)))
  embedded-IsEmbedding provider d v n id (text ∷ texts) =
      go (provider.embed text) refl (embedded-IsEmbedding provider d v (n + 1) (id + 1) texts)
    where
      go :
          (answer : Result String V)
          → provider.embed text ≡ answer
          → IsEmbedding provider v texts (embedded provider d v (n + 1) (id + 1) texts)
          → IsEmbedding provider v (text ∷ texts) (embedded provider d v n id (text ∷ texts))
      go (err message) e rest = inr (message, (text, at_head refl, e), rw e refl)
      go (ok vector) e (inl (embeds, (rows, answered, (count, its)))) = inl (
        ((vector, e), embeds),
        (
          row_of provider d v n id text vector ∷ rows,
          rw e (rw answered refl),
          (ap suc count, (refl, its)),
        ),
      )
      go (ok vector) e (inr (message, (t, m, refused), failed)) =
          inr (message, (t, in_tail m, refused), rw e (rw failed refl))

  -- chunks of one version, and of others
  count_chunks-all :
      (version_id : ℕ) (rows : List (Chunk V))
      → All (λ (c : Chunk V). c.document_version_id ≡ version_id) rows
      → count_chunks version_id rows ≡ length rows
  unfolding count_chunks
  count_chunks-all version_id [] h = refl
  count_chunks-all version_id (c ∷ cs) h = ground (arith, count_chunks-all version_id cs h.1)

  pub count_chunks-none :
      (version_id : ℕ) (rows : List (Chunk V))
      → All (λ (c : Chunk V). c.document_version_id < version_id) rows
      → count_chunks version_id rows ≡ 0
  unfolding count_chunks
  count_chunks-none version_id [] h = refl
  count_chunks-none version_id (c ∷ cs) h = ground (arith, count_chunks-none version_id cs h.1)

  pub count_chunks-added :
      (version_id : ℕ) (chunks rows : List (Chunk V))
      → All (λ (c : Chunk V). c.document_version_id < version_id) chunks
      → All (λ (c : Chunk V). c.document_version_id ≡ version_id) rows
      → count_chunks version_id (chunks ++ rows) ≡ length rows
  unfolding count_chunks
  count_chunks-added version_id chunks rows older its =
      let p = λ (c : Chunk V). c.document_version_id == version_id in
      let first = count_chunks-none version_id chunks older in
      let second = count_chunks-all version_id rows its in
      rw (select-append p chunks rows)
        (rw (length-append (select p chunks) (select p rows)) (omega (arith, first, second)))

  -- a version that is not yet there has no chunks
  pub chunks-older :
      (s : Store V)
      → IsConsistent s
      → All (λ (c : Chunk V). c.document_version_id < s.next_version) s.chunks
  chunks-older s h =
      All-imp (IsOwned s.documents s.versions) _ s.chunks
        (λ c o.
          let (v, d, at_v, _, _) = o in
          let (elem, key) =
            find_first-IsElem (λ (w : DocumentVersion). w.id == c.document_version_id) s.versions v
              at_v in
          let fresh =
            All-at (λ (w : DocumentVersion). w.id < s.next_version) v s.versions h.0.versions_fresh
              elem in
          let same : v.id ≡ c.document_version_id = (==_iff v.id c.document_version_id).0 key in
          omega arith)
        h.0.owned

  -- `index` of a document with a version answers, or raises what the provider raised.
  pub index-cases :
      (strip : String → String) (provider : EmbeddingProvider V) (correlation_id : String)
      (s : Store V) (d : Document) (v : DocumentVersion) (texts : List String)
      → document_at d.id s.documents ≡ some d
      → latest_version d.id s.versions ≡ some v
      → chunk_text strip v.content ≡ some texts
      → (Embeds provider texts
          × ((rows : List (Chunk V)) × (index strip provider d.id correlation_id s
                ≡ ok (with_index d.id v.id rows d.organization_id correlation_id s))
              × IsRows v texts rows))
        ⊎ ((message : String) × Refuses provider texts message
            × (index strip provider d.id correlation_id s ≡ err (embedding_failed message)))
  unfolding index
  index-cases strip provider correlation_id s d v texts at_d at_v chunked =
      elim (embedded-IsEmbedding provider d v 0 s.next_chunk texts) [
        | inl (embeds, (rows, answered, its)) ↦
            inl (embeds, (rows, rw at_d (rw at_v (rw chunked (rw answered refl))), its))
        | inr (message, refused, failed) ↦
            inr (message, refused, rw at_d (rw at_v (rw chunked (rw failed refl))))
      ]
