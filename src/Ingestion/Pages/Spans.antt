-- ===== src/Ingestion/Pages/Spans.antt =====
-- parsing.py: the spans of `PdfParser.parse`, which index the text of the document.
use mathlib.Core.List.{append-nil, append_assoc}
use econiq_ai.Prelude.{
  ℕ, ◌+◌, ◌≤◌, ◌<◌, ◌≡◌, refl, sym, ◌∙◌, ap, inl, inr, true, false, Option, some, List, [], ◌∷◌,
  ◌++◌, arith, subst, if◌then◌else◌, length, length-append, find, In, Bool-cases,
}
use econiq_ai.Prelude.Membership.{In-append}
use econiq_ai.Prelude.Text.{Text, is_empty, join, slice}
use econiq_ai.Prelude.Slices.{slice_middle, slice-append, find-append_left, find-append_right}
use econiq_ai.Ingestion.Documents.{Section, spans, section_at}
use econiq_ai.Ingestion.Normalize.{normalize_whitespace}
use econiq_ai.Ingestion.Pages.{
  Pages, PdfContent, blank_line, page_section, add_page, add_pages, no_pages, pdf_document,
}

-- the chunks, each with a blank line behind it
laid : List Text → Text
laid [] = []
laid (chunk ∷ chunks) = chunk ++ (blank_line ++ laid chunks)

laid-append :
    (xs : List Text) (chunk : Text) → laid (xs ++ (chunk ∷ [])) ≡ laid xs ++ (chunk ++ blank_line)
unfolding laid
laid-append [] chunk = simp append-nil
laid-append (x ∷ xs) chunk = simp (append_assoc, laid-append xs chunk)

laid-join :
    (chunk : Text) (chunks : List Text)
    → laid (chunk ∷ chunks) ≡ join blank_line (chunk ∷ chunks) ++ blank_line
unfolding laid join
laid-join chunk [] = simp append-nil
laid-join chunk (next ∷ chunks) = simp (append_assoc, laid-join next chunks)

-- A section lies in front of the offset, reads as its span of the text so far, and is the one found
-- at each position of the span.
record IsLaid (pages : Pages) : Type 0 where
  ends : pages.offset ≡ length (laid pages.chunks)
  before : (s : Section) → In s pages.sections → s.char_end + 2 ≤ pages.offset
  reads :
      (s : Section)
      → In s pages.sections
      → slice (laid pages.chunks) s.char_start s.char_end ≡ s.text
  finds :
      (s : Section) (k : ℕ)
      → In s pages.sections
      → spans k s ≡ true
      → find (spans k) pages.sections ≡ some s
  sized : (s : Section) → In s pages.sections → s.char_end ≡ s.char_start + length s.text

spans_start : (s : Section) (k : ℕ) → spans k s ≡ true → (s.char_start ≤ k) × (k < s.char_end)
unfolding spans
spans_start s k h = ground arith

within :
    (s : Section) (k : ℕ)
    → k < length s.text
    → s.char_end ≡ s.char_start + length s.text
    → spans (s.char_start + k) s ≡ true
unfolding spans
within s k l e = ground arith

-- One page more: the section that it adds, and those that were there.
module _ (number : ℕ) (page : Text) (pages : Pages) (h : IsLaid pages) where
  abbrev added : Section
  added = page_section pages number page

  abbrev more : Pages
  more = record {
    sections = pages.sections ++ (added ∷ []);
    chunks = pages.chunks ++ (page ∷ []);
    offset = pages.offset + (length page + 2);
  }

  more-ends : more.offset ≡ length (laid more.chunks)
  more-ends = rw (laid-append pages.chunks page) (
      omega (
        arith,
        h.ends,
        length-append (laid pages.chunks) (page ++ blank_line),
        length-append page blank_line,
      ))

  added-reads : slice (laid more.chunks) added.char_start added.char_end ≡ added.text
  unfolding page_section
  added-reads =
      rw (laid-append pages.chunks page, h.ends) (slice_middle (laid pages.chunks) page blank_line)

  old-reads :
      (s : Section)
      → In s pages.sections
      → slice (laid more.chunks) s.char_start s.char_end ≡ s.text
  old-reads s m = rw (laid-append pages.chunks page) (
      slice-append (laid pages.chunks) (page ++ blank_line) s.char_start s.char_end
        (omega (arith, h.before s m, h.ends))
      ∙ h.reads s m)

  not_old : (k : ℕ) → pages.offset ≤ k → (s : Section) → In s pages.sections → spans k s ≡ false
  not_old k l s m = elim (Bool-cases (spans k s)) [
    | inl e ↦ absurd (omega (arith, h.before s m, spans_start s k e))
    | inr e ↦ e
  ]

  added-finds : (k : ℕ) → spans k added ≡ true → find (spans k) more.sections ≡ some added
  unfolding page_section
  added-finds k e =
      find-append_right (spans k) pages.sections (added ∷ [])
        (not_old k (omega (arith, spans_start added k e)))
      ∙ rw e refl

  more-IsLaid : IsLaid more
  unfolding page_section
  more-IsLaid = record {
    ends = more-ends;
    before = λ s m. elim (In-append s pages.sections (added ∷ []) m) [
      | inl o ↦ omega (arith, h.before s o)
      | inr (inl e) ↦ rw e (omega arith)
      | inr (inr n) ↦ elim n [ ]
    ];
    reads = λ s m. elim (In-append s pages.sections (added ∷ []) m) [
      | inl o ↦ old-reads s o
      | inr (inl e) ↦ rw e added-reads
      | inr (inr n) ↦ elim n [ ]
    ];
    finds = λ s k m e. elim (In-append s pages.sections (added ∷ []) m) [
      | inl o ↦ find-append_left (spans k) s pages.sections (added ∷ []) (h.finds s k o e)
      | inr (inl q) ↦ rw q (added-finds k (subst (λ t. spans k t ≡ true) q e))
      | inr (inr n) ↦ elim n [ ]
    ];
    sized = λ s m. elim (In-append s pages.sections (added ∷ []) m) [
      | inl o ↦ h.sized s o
      | inr (inl e) ↦ rw e refl
      | inr (inr n) ↦ elim n [ ]
    ];
  }

add_page-IsLaid :
    (number : ℕ) (page : Text) (pages : Pages) → IsLaid pages → IsLaid (add_page number page pages)
unfolding add_page
add_page-IsLaid number page pages h =
    elim (is_empty page) as (λ b. IsLaid (if b then pages else more number page pages h)) [
      | true ↦ h
      | false ↦ more-IsLaid number page pages h
    ]

add_pages-IsLaid :
    (number : ℕ) (rest : List Text) (pages : Pages)
    → IsLaid pages
    → IsLaid (add_pages number rest pages)
unfolding add_pages
add_pages-IsLaid number [] pages h = h
add_pages-IsLaid number (page ∷ rest) pages h =
    add_pages-IsLaid (number + 1) rest (add_page number (normalize_whitespace page) pages)
      (add_page-IsLaid number (normalize_whitespace page) pages h)

no_pages-IsLaid : IsLaid no_pages
unfolding laid
no_pages-IsLaid = record {
  ends = refl;
  before = λ s m. elim m [ ];
  reads = λ s m. elim m [ ];
  finds = λ s k m e. elim m [ ];
  sized = λ s m. elim m [ ];
}

-- What holds of the laid out text holds of the joined one.
join-reads :
    (pages : Pages) (s : Section)
    → IsLaid pages
    → In s pages.sections
    → slice (join blank_line pages.chunks) s.char_start s.char_end ≡ s.text
unfolding laid
join-reads pages s h m = at_chunks pages.chunks h.ends (h.reads s m)
  where
    at_chunks :
        (chunks : List Text)
        → pages.offset ≡ length (laid chunks)
        → slice (laid chunks) s.char_start s.char_end ≡ s.text
        → slice (join blank_line chunks) s.char_start s.char_end ≡ s.text
    at_chunks [] e r = absurd (omega (arith, e, h.before s m))
    at_chunks (chunk ∷ chunks) e r =
        let j = laid-join chunk chunks in
        sym (
          slice-append (join blank_line (chunk ∷ chunks)) blank_line s.char_start s.char_end (
            omega (
              arith,
              e,
              h.before s m,
              ap length j,
              length-append (join blank_line (chunk ∷ chunks)) blank_line,
            )))
        ∙ subst (λ t. slice t s.char_start s.char_end ≡ s.text) j r

-- For each section of a parsed PDF, the span of the section in the text of the document is the
-- text of the section, and section_at finds the section at each position of the span.
pub pdf_document_roundtrip :
    (content : PdfContent) (title : Option Text) (s : Section) (k : ℕ)
    → In s (pdf_document content title).sections
    → k < length s.text
    → (slice (pdf_document content title).text s.char_start s.char_end ≡ s.text)
      × (section_at (pdf_document content title) (s.char_start + k) ≡ some s)
unfolding pdf_document section_at
pdf_document_roundtrip content title s k m l =
    let h = add_pages-IsLaid 1 content.pages no_pages no_pages-IsLaid in
    (
      join-reads (add_pages 1 content.pages no_pages) s h m,
      h.finds s (s.char_start + k) m (within s k l (h.sized s m)),
    )
