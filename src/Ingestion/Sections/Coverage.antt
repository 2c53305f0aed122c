-- ===== src/Ingestion/Sections/Coverage.antt =====
-- parsing.py: the sections of `detect_sections` hold all of the text that is not blank.
use econiq_ai.Prelude.{
  ℕ, ◌+◌, ◌≤◌, ◌<◌, ◌≡◌, refl, inl, inr, Bool, true, false, some, List, [], ◌∷◌, arith, ltb,
  if◌then◌else◌, get_elem?, In, Bool-cases,
}
use econiq_ai.Prelude.Membership.{find-In}
use econiq_ai.Prelude.Slices.{slice-get_elem?, get_elem?-In, get_elem?-lt, find_total}
use econiq_ai.Prelude.Strips.{is_empty-strip}
use econiq_ai.Prelude.Text.{Text, is_space, strip, is_empty, slice, split_on, newline}
use econiq_ai.Ingestion.Documents.{Section, ParsedDocument, spans, section_at}
use econiq_ai.Ingestion.Sections.{
  Start, preamble, starts_from, from_zero, end_of, sections_from, detect_sections,
}

-- Each section is its span of the text, stripped.
reads :
    (text : Text) (index : ℕ) (starts : List Start) (s : Section)
    → In s (sections_from text index starts)
    → s.text ≡ strip (slice text s.char_start s.char_end)
unfolding sections_from
reads text index [] s m = elim m [ ]
reads text index (start ∷ starts) s m =
    ground (arith, reads text index starts s, reads text (index + 1) starts s)

module _ (text : Text) (k c : ℕ) (at : get_elem? text k ≡ some c) (solid : is_space c ≡ false) where
  spanned :
      (index : ℕ) (start : Start) (starts : List Start)
      → start.offset ≤ k
      → k < end_of text starts
      → (s : Section) × In s (sections_from text index (start ∷ starts)) × (spans k s ≡ true)
  unfolding sections_from spans
  spanned index start starts l u =
      let e =
        is_empty-strip c (slice text start.offset (end_of text starts)) solid
          (slice-get_elem? text start.offset (end_of text starts) k c at l u) in
      rw e (_, inl refl, ground arith)

  later :
      (index : ℕ) (start : Start) (starts : List Start) (s : Section)
      → In s (
          sections_from text
            (if is_empty (strip (slice text start.offset (end_of text starts)))
              then index
              else index + 1)
            starts)
      → In s (sections_from text index (start ∷ starts))
  unfolding sections_from
  later index start starts s m =
      elim (Bool-cases (is_empty (strip (slice text start.offset (end_of text starts))))) [
        | inl e ↦ rw e (rw e at m)
        | inr e ↦ rw e (inr (rw e at m))
      ]

  -- The section that starts last at or before a character that is not blank spans it.
  covers :
      (index : ℕ) (start : Start) (starts : List Start)
      → start.offset ≤ k
      → (s : Section) × In s (sections_from text index (start ∷ starts)) × (spans k s ≡ true)
  unfolding end_of
  covers index start [] l = spanned index start [] l (get_elem?-lt text k c at)
  covers index start (next ∷ starts) l = elim (Bool-cases (ltb k next.offset)) [
    | inl e ↦ spanned index start (next ∷ starts) l (ground arith)
    | inr e ↦
        let (s, m, t) =
          covers
            (if is_empty (strip (slice text start.offset next.offset)) then index else index + 1)
            next starts (ground arith) in
        (s, later index start (next ∷ starts) s m, t)
  ]

from_zero_lem :
    (starts : List Start)
    → (start : Start) × (rest : List Start) × (from_zero starts ≡ start ∷ rest) × (start.offset ≡ 0)
unfolding from_zero
from_zero_lem [] = (preamble, [], refl, refl)
from_zero_lem (start ∷ starts) = elim (Bool-cases (ltb 0 start.offset)) [
  | inl e ↦ (preamble, start ∷ starts, rw e refl, refl)
  | inr e ↦ (start, starts, rw e refl, ground arith)
]

detected :
    (is_digit : ℕ → Bool) (text : Text) (k c : ℕ)
    → get_elem? text k ≡ some c
    → is_space c ≡ false
    → (s : Section) × In s (detect_sections is_digit text) × (spans k s ≡ true)
unfolding detect_sections
detected is_digit text k c at solid =
    let (start, rest, e, z) = from_zero_lem (starts_from is_digit 0 (split_on newline text)) in
    rw (is_empty-strip c text solid (get_elem?-In text k c at), e)
      (covers text k c at solid 0 start rest (omega (arith, z)))

detected-reads :
    (is_digit : ℕ → Bool) (text : Text) (s : Section)
    → In s (detect_sections is_digit text)
    → s.text ≡ strip (slice text s.char_start s.char_end)
unfolding detect_sections
detected-reads is_digit text s m = elim (Bool-cases (is_empty (strip text))) [
  | inl e ↦ elim (rw e at m) [ ]
  | inr e ↦ reads text 0 (from_zero (starts_from is_digit 0 (split_on newline text))) s (rw e at m)
]

-- In a document with the sections that detect_sections finds in its text, section_at finds a
-- section for each character that is not white space; the section spans the character and its text
-- is the span, stripped.
pub detect_sections_covers :
    (is_digit : ℕ → Bool) (document : ParsedDocument) (k c : ℕ)
    → document.sections ≡ detect_sections is_digit document.text
    → get_elem? document.text k ≡ some c
    → is_space c ≡ false
    → (s : Section) × (section_at document k ≡ some s)
      × (s.char_start ≤ k)
      × (k < s.char_end)
      × (s.text ≡ strip (slice document.text s.char_start s.char_end))
unfolding section_at spans
detect_sections_covers is_digit document k c of at solid =
    let (a, m, t) = detected is_digit document.text k c at solid in
    let (s, f) = find_total (spans k) a (detect_sections is_digit document.text) m t in
    let (n, u) = find-In s (spans k) (detect_sections is_digit document.text) f in
    (s, rw of f, ground arith, ground arith, detected-reads is_digit document.text s n)
