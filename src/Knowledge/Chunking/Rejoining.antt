-- ===== src/Knowledge/Chunking/Rejoining.antt =====
-- The chunks of a text cover it: without their overlaps they are the text.
use Prim.Native.String.{[] as empty_text}
use text.Mathlib.TextLemmas.{append-nil}
use mathlib.Core.Path.{subst}
use ai_pmo_copilot.Common.{
  ℕ, zero, suc, ◌+◌, ◌-◌, ◌≤◌, ◌<◌, String, ◌≡◌, refl, sym, ap, ◌∙◌, true, false, Option, some,
  List, [], ◌∷◌, ltb, leb, ◌==◌, count, str_append, truncate, drop_chars, slice_chars, All, arith,
  lt→ltb, leb→le, text_without_chars, Bool-cases, ==_iff, inl, inr, truncate-append-drop_chars,
  drop_chars-drop_chars, count-drop_chars, truncate_all, count-truncate_eq, drop_chars-append,
}
use ai_pmo_copilot.Knowledge.Chunking.{
  smaller, with_chunk, chunks_from, chunk_text, chunk_size_chars, chunk_overlap_chars,
}

-- The chunks after a first, each without what it repeats of the one before.
abbrev pub continued : ℕ → List String → String
continued overlap [] = empty_text
continued overlap (c ∷ cs) = str_append (drop_chars overlap c) (continued overlap cs)

abbrev pub rejoined : ℕ → List String → String
rejoined overlap [] = empty_text
rejoined overlap (c ∷ cs) = str_append c (continued overlap cs)

-- a chunk of the cited size, and not empty
abbrev pub IsChunk : ℕ → String → Type 0
IsChunk size c = (0 < count c) × (count c ≤ size)

-- What the loop gives from a place before the end: chunks of which the first, unless it is the last,
-- has the full size, and which rejoin to the rest of the text.
abbrev IsCover : ℕ → ℕ → String → Option (List String) → Type 0
IsCover size overlap rest found =
    (c : String) × (cs : List String) × (found ≡ some (c ∷ cs))
    × (str_append c (continued overlap cs) ≡ rest)
    × All (IsChunk size) (c ∷ cs)
    × (overlap < count rest → overlap ≤ count c)

-- the same, at a rest of another shape
IsCover-with_chunk :
    (size overlap : ℕ) (rest : String) (found : Option (List String))
    → overlap < size
    → size < count rest
    → IsCover size overlap (drop_chars (size - overlap) rest) found
    → IsCover size overlap rest (with_chunk (truncate size rest) found)
IsCover-with_chunk size overlap rest found apart long (c, cs, e, joined, (here, more), full) = (
  truncate size rest,
  c ∷ cs,
  rw e refl,
  rw tail (truncate-append-drop_chars size rest),
  ((omega (arith, first_count), omega (arith, first_count)), (here, more)),
  λ h. omega (arith, first_count),
)
  where
    first_count : count (truncate size rest) ≡ size
    first_count = count-truncate_eq size rest (omega arith)

    past : size - overlap + overlap ≡ size
    past = omega arith

    rest_count : overlap < count (drop_chars (size - overlap) rest)
    rest_count = let e = count-drop_chars (size - overlap) rest in omega arith

    tail : str_append (drop_chars overlap c) (continued overlap cs) ≡ drop_chars size rest
    tail =
        sym (drop_chars-append overlap c (continued overlap cs) (full rest_count))
        ∙ ap (drop_chars overlap) joined
        ∙ drop_chars-drop_chars (size - overlap) overlap rest
        ∙ ap (λ n. drop_chars n rest) past

module _ (size overlap : ℕ) (apart : overlap < size) where
  last-IsCover :
      (s : String) (start : ℕ)
      → start < count s
      → count s ≤ start + size
      → IsCover size overlap (drop_chars start s) (some (slice_chars start (count s) s ∷ []))
  last-IsCover s start h e =
      let whole : slice_chars start (count s) s ≡ drop_chars start s =
        truncate_all (count s - start) (drop_chars start s) (rw count-drop_chars (omega arith)) in
      let size_of = count-drop_chars start s in
      (
        slice_chars start (count s) s,
        [],
        refl,
        rw whole (append-nil (drop_chars start s)),
        ((rw whole (omega arith), rw whole (omega arith)), tt),
        λ k. rw whole (omega arith),
      )

  -- the turn that reaches the end of the text, and any other
  chunks_from-last :
      (fuel : ℕ) (s : String) (start : ℕ)
      → start < count s
      → count s ≤ start + size
      → chunks_from size overlap (suc fuel) s start ≡ some (slice_chars start (count s) s ∷ [])
  unfolding chunks_from
  chunks_from-last fuel s start h e =
      let end : smaller (start + size) (count s) ≡ count s = ground arith in
      let last : (count s == count s) ≡ true = ground arith in
      let goes : ltb start (count s) ≡ true = lt→ltb start (count s) h in
      rw end (rw last (rw goes refl))

  chunks_from-more :
      (fuel : ℕ) (s : String) (start : ℕ)
      → start + size < count s
      → chunks_from size overlap (suc fuel) s start
        ≡ with_chunk
            (truncate size (drop_chars start s))
            (chunks_from size overlap fuel s (start + (size - overlap)))
  unfolding chunks_from
  chunks_from-more fuel s start h =
      let end : smaller (start + size) (count s) ≡ start + size = ground arith in
      let early : (start + size == count s) ≡ false = ground arith in
      let goes : ltb start (count s) ≡ true = lt→ltb start (count s) (omega arith) in
      let width : start + size - start ≡ size = omega arith in
      rw end (rw early (rw goes (rw width refl)))

  chunks_from-IsCover :
      (fuel : ℕ) (s : String) (start : ℕ)
      → start < count s
      → count s < fuel + start
      → IsCover size overlap (drop_chars start s) (chunks_from size overlap fuel s start)
  chunks_from-IsCover zero s start h f = let bad : ⊥ = omega arith in elim bad [ ]
  chunks_from-IsCover (suc fuel) s start h f = elim (Bool-cases (leb (count s) (start + size))) [
    | inl ends ↦
        let e = leb→le (count s) (start + size) ends in
        subst (IsCover size overlap (drop_chars start s)) (sym (chunks_from-last fuel s start h e))
          (last-IsCover s start h e)
    | inr more ↦
        let e : start + size < count s = ground arith in
        let rest =
          chunks_from-IsCover fuel s (start + (size - overlap)) (omega arith) (omega arith) in
        let long : size < count (drop_chars start s) = rw count-drop_chars (omega arith) in
        subst (IsCover size overlap (drop_chars start s)) (sym (chunks_from-more fuel s start e)) (
          IsCover-with_chunk size overlap (drop_chars start s) _ apart long
            (rw (drop_chars-drop_chars start (size - overlap) s) rest))
  ]

-- For every text: `_chunk_text` returns; each chunk has at least one and at most 500 characters; and
-- the chunks, each after the first without its first 50 characters, are together the stripped text, so
-- that no character is lost.
pub chunk_text-rejoined :
    (strip : String → String) (text : String)
    → (chunks : List String) × (chunk_text strip text ≡ some chunks)
      × (rejoined chunk_overlap_chars chunks ≡ strip text)
      × All (IsChunk chunk_size_chars) chunks
unfolding chunk_text
chunk_text-rejoined strip text = elim (Bool-cases (count (strip text) == 0)) [
  | inl nothing ↦
      let none_left : strip text ≡ empty_text =
        text_without_chars (strip text) ((==_iff (count (strip text)) 0).0 nothing) in
      ([], rw nothing refl, sym none_left, tt)
  | inr content ↦
      let full : 0 < count (strip text) = ground arith in
      let (c, cs, e, joined, sizes, _) =
        chunks_from-IsCover chunk_size_chars chunk_overlap_chars (omega arith)
          (count (strip text) + 1) (strip text) 0 full (omega arith) in
      (c ∷ cs, rw content e, joined, sizes)
]
