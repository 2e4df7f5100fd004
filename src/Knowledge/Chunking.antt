-- ===== src/Knowledge/Chunking.antt =====
-- `_chunk_text` of src/services/knowledge_platform/knowledge_repository.py. `strip` is Python's
-- `str.strip`.
pub mod Rejoining
use ai_pmo_copilot.Common.{
  ℕ, zero, suc, ◌+◌, ◌-◌, String, Option, none, some, Bool, true, false, List, [], ◌∷◌, ltb, leb,
  ◌==◌, count, slice_chars, if◌then◌else◌,
}

abbrev pub chunk_size_chars : ℕ
chunk_size_chars = 500

abbrev pub chunk_overlap_chars : ℕ
chunk_overlap_chars = 50

-- `min` of the code
abbrev pub smaller : ℕ → ℕ → ℕ
smaller a b = if leb a b then a else b

-- `chunks.append`, before the rest of the loop; `none` if the fuel ran out
abbrev pub with_chunk : String → Option (List String) → Option (List String)
with_chunk chunk none = none
with_chunk chunk (some chunks) = some (chunk ∷ chunks)

-- The loop, from `start`; the fuel is the number of turns that it may take.
unfoldable pub chunks_from : ℕ → ℕ → ℕ → String → ℕ → Option (List String)
chunks_from size overlap zero normalized start = none
chunks_from size overlap (suc fuel) normalized start =
    let rest = chunks_from size overlap fuel normalized (start + (size - overlap)) in
    if ltb start (count normalized)
    then (if smaller (start + size) (count normalized) == count normalized
        then some (slice_chars start (smaller (start + size) (count normalized)) normalized ∷ [])
        else with_chunk (slice_chars start (smaller (start + size) (count normalized)) normalized)
            rest)
    else some []

-- One turn for each character is enough.
unfoldable pub chunk_text : (String → String) → String → Option (List String)
unfolding chunks_from
chunk_text strip text =
    if count (strip text) == 0
    then some []
    else chunks_from chunk_size_chars chunk_overlap_chars (count (strip text) + 1) (strip text) 0
