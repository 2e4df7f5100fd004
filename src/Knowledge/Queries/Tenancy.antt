-- ===== src/Knowledge/Queries/Tenancy.antt =====
-- A search stays in its organization, through the join that its results come from.
use ai_pmo_copilot.Common.{
  limited, ℕ, zero, suc, ◌≤◌, ◌≡◌, refl, sym, ap, ◌∙◌, String, Option, none, some, Bool, List, [],
  ◌∷◌, map, length, ◌==◌, ==_iff, select, All, All-map, All-of_elem, All-at, IsElem, at_head,
  in_tail, IsElem-of_select, arith,
}
use ai_pmo_copilot.Knowledge.Tables.{
  Document, DocumentVersion, Chunk, Store, ScoredChunk, VectorIndex, document_at, version_at,
}
use ai_pmo_copilot.Knowledge.Queries.{join_version, joined, scored, similarity_search}
use ai_pmo_copilot.Knowledge.Repository.Consistency.{IsOwned, IsConsistent}
use ai_pmo_copilot.Knowledge.Repository.History.{
  Request, perform_all, empty_store, empty_store-IsConsistent, perform_all-IsConsistent,
}

length-limited {ℓ} : {A : Type ℓ} (n : ℕ) (xs : List A) → length (limited n xs) ≤ n
length-limited zero xs = omega arith
length-limited (suc n) [] = omega arith
length-limited (suc n) (x ∷ xs) = omega (arith, length-limited n xs)

All-limited {ℓ κ} :
    {A : Type ℓ} (P : A → Type κ) (n : ℕ) (xs : List A) → All P xs → All P (limited n xs)
All-limited P zero xs h = tt
All-limited P (suc n) [] h = tt
All-limited P (suc n) (x ∷ xs) h = (h.0, All-limited P n xs h.1)

length-map {ℓ κ} :
    {A : Type ℓ} {B : Type κ} (f : A → B) (xs : List A) → length (map f xs) ≡ length xs
length-map f [] = refl
length-map f (x ∷ xs) = ap suc (length-map f xs)

module _ {V : Type 0} where
  -- a row of the join is a chunk of the table with its version
  IsElem-of_joined :
      (r : Chunk V × DocumentVersion) (versions : List DocumentVersion) (chunks : List (Chunk V))
      → IsElem r (joined versions chunks)
      → IsElem r.0 chunks × (version_at r.0.document_version_id versions ≡ some r.1)
  IsElem-of_joined r versions [] h = elim h [ ]
  IsElem-of_joined r versions (c ∷ cs) h =
      go (version_at c.document_version_id versions) refl (IsElem-of_joined r versions cs) h
    where
      go :
          (found : Option DocumentVersion)
          → version_at c.document_version_id versions ≡ found
          → (IsElem r (joined versions cs)
              → IsElem r.0 cs × (version_at r.0.document_version_id versions ≡ some r.1))
          → IsElem r (join_version c found (joined versions cs))
          → IsElem r.0 (c ∷ cs) × (version_at r.0.document_version_id versions ≡ some r.1)
      go none e ih m = let (elem, there) = ih m in (in_tail elem, there)
      go (some v) e ih (at_head same) = (
        at_head (ap (λ (x : Chunk V × DocumentVersion). x.0) same),
        ap (λ (x : Chunk V × DocumentVersion). version_at x.0.document_version_id versions) same
            ∙ e
            ∙ ap (λ (x : Chunk V × DocumentVersion). some x.1) (sym same),
      )
      go (some v) e ih (in_tail m) = let (elem, there) = ih m in (in_tail elem, there)

module _ {V S : Type 0} where
  -- the document that a result cites is there, and is of the organization
  abbrev pub IsCitedIn : ℕ → Store V → ScoredChunk S → Type 0
  IsCitedIn organization_id s result =
      (document : Document) × (document_at result.document_id s.documents ≡ some document)
      × (document.organization_id ≡ organization_id)

module _ {V S : Type 0} (vectors : VectorIndex V S) where
  similarity_search-All :
      (organization_id : ℕ) (query : V) (top_k : ℕ) (s : Store V)
      → IsConsistent s
      → All (IsCitedIn organization_id s) (similarity_search vectors organization_id query top_k s)
  unfolding similarity_search
  similarity_search-All organization_id query top_k s h =
      All-map (IsCitedIn organization_id s) (scored vectors query) (limited top_k ordered)
        (All-limited _ top_k ordered (All-of_elem _ ordered each))
    where
      p : Chunk V × DocumentVersion → Bool
      p r = r.0.organization_id == organization_id

      rows : List (Chunk V × DocumentVersion)
      rows = select p (joined s.versions s.chunks)

      ordered : List (Chunk V × DocumentVersion)
      ordered =
          vectors.order_by_distance query (λ (r : Chunk V × DocumentVersion). r.0.embedding) rows

      each :
          (r : Chunk V × DocumentVersion)
          → IsElem r ordered
          → IsCitedIn organization_id s (scored vectors query r)
      each r m =
          let here =
            (vectors.elem_order_by_distance query (λ (x : Chunk V × DocumentVersion). x.0.embedding)
                rows r).0
              m in
          let kept = IsElem-of_select r p (joined s.versions s.chunks) here in
          let (elem, at_version) = IsElem-of_joined r s.versions s.chunks kept.0 in
          let (v, d, at_v, at_d, same) =
            All-at (IsOwned s.documents s.versions) r.0 s.chunks h.0.owned elem in
          let both : some v ≡ some r.1 = sym at_v ∙ at_version in
          let one : v ≡ r.1 = cc in
          (
            d,
            ap (λ (w : DocumentVersion). document_at w.document_id s.documents) (sym one) ∙ at_d,
            same ∙ (==_iff r.0.organization_id organization_id).0 kept.1,
          )

  similarity_search-bound :
      (organization_id : ℕ) (query : V) (top_k : ℕ) (s : Store V)
      → length (similarity_search vectors organization_id query top_k s) ≤ top_k
  unfolding similarity_search
  similarity_search-bound organization_id query top_k s = rw length-map (length-limited top_k _)

  -- Whatever calls of `ingest` and `index` came before, from the empty tables: each result of
  -- `similarity_search` cites a document that is there and is of the given organization, and there
  -- are at most `top_k` results.
  pub similarity_search-tenancy :
      (strip : String → String) (calls : List (Request V)) (organization_id : ℕ) (query : V)
      (top_k : ℕ)
      → All (IsCitedIn organization_id (perform_all strip calls empty_store)) (
          similarity_search vectors organization_id query top_k
            (perform_all strip calls empty_store))
        × (length (
              similarity_search vectors organization_id query top_k
                (perform_all strip calls empty_store))
            ≤ top_k)
  similarity_search-tenancy strip calls organization_id query top_k =
      let s = perform_all strip calls empty_store in
      (
        similarity_search-All organization_id query top_k s
            (perform_all-IsConsistent strip calls empty_store empty_store-IsConsistent),
        similarity_search-bound organization_id query top_k s,
      )
