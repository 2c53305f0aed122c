-- ===== src/Ingestion/Examples.antt =====
-- The theorems about ingestion at concrete documents.
mod Stored
use econiq_ai.Prelude.{
  ℕ, ◌≡◌, refl, ◌≤◌, ◌<◌, inl, inr, Bool, false, none, some, List, [], ◌∷◌, arith, leb, ◌&&◌,
}
use econiq_ai.Prelude.Text.{Text, strip, slice, is_space}
use econiq_ai.Ingestion.Documents.{Section, ParsedDocument, section_at}
use econiq_ai.Ingestion.Sections.{detect_sections}
use econiq_ai.Ingestion.Sections.Coverage.{detect_sections_covers}
use econiq_ai.Ingestion.Pages.{PdfContent, page_section, pdf_document, no_pages}
use econiq_ai.Ingestion.Pages.Spans.{pdf_document_roundtrip}
use econiq_ai.Ingestion.Tags.{StripTags, Markup, start_tag, end_tag, characters, feed, is_skip}
use econiq_ai.Ingestion.Tags.Skipped.{nesting, HasOnlyBreaks}
use econiq_ai.Ingestion.Parsers.{Libraries, Parser, plain_text_parse}

-- two pages, `Hi` and `Ho`, and a blank one between them
abbrev scan : PdfContent
scan = record { pages = (72 ∷ 105 ∷ []) ∷ (32 ∷ []) ∷ (72 ∷ 111 ∷ []) ∷ []; metadata = [] }

abbrev second_page : Section
second_page = record {
  index = 1;
  heading = some (80 ∷ 97 ∷ 103 ∷ 101 ∷ 32 ∷ 51 ∷ []);
  text = 72 ∷ 111 ∷ [];
  char_start = 4;
  char_end = 6;
  level = 1;
}

pdf_document-scan :
    (pdf_document scan none).sections ≡ page_section no_pages 1 (72 ∷ 105 ∷ []) ∷ second_page ∷ []
unfolding pdf_document page_section is_space
pdf_document-scan = refl

pdf_document_roundtrip_example :
    (slice (pdf_document scan none).text 4 6 ≡ second_page.text)
    × (section_at (pdf_document scan none) 5 ≡ some second_page)
unfolding pdf_document page_section is_space
pdf_document_roundtrip_example =
    pdf_document_roundtrip scan none second_page 1 (inr (inl refl)) (omega arith)

-- `# A`, `b`: a heading and a line
abbrev pub note : Text
note = 35 ∷ 32 ∷ 65 ∷ 10 ∷ 98 ∷ []

abbrev pub is_ascii_digit : ℕ → Bool
is_ascii_digit c = leb 48 c && leb c 57

abbrev pub noted : ParsedDocument
noted = record {
  text = note;
  sections = detect_sections is_ascii_digit note;
  title = none;
  parser = "plain_text";
  metadata = [];
}

detect_sections_covers_example :
    (s : Section) × (section_at noted 4 ≡ some s)
    × (s.char_start ≤ 4)
    × (4 < s.char_end)
    × (s.text ≡ strip (slice note s.char_start s.char_end))
unfolding is_space
detect_sections_covers_example = detect_sections_covers is_ascii_digit noted 4 98 refl refl refl

abbrev pub libraries : Libraries
libraries = record {
  decode = λ bytes. bytes;
  is_digit = is_ascii_digit;
  lower = λ s. s;
  markup = λ s. characters s ∷ [];
  trafilatura = none;
}

-- `t/p`, registered for plain text
abbrev pub plain : Parser
plain = record { content_types = (116 ∷ 47 ∷ 112 ∷ []) ∷ []; parse = plain_text_parse libraries }
