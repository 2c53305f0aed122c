-- ===== src/Ingestion/Pages.antt =====
-- parsing.py: `PdfParser.parse`. What pymupdf finds is a parameter: `none` stands for its absence, and
-- else it gives the texts of the pages and the metadata, each value as its text.
pub mod Spans
use mathlib.Core.Option
use econiq_ai.Prelude.{
  ℕ, Option, none, some, List, [], ◌∷◌, ◌++◌, ◌+◌, if◌then◌else◌, length, not, filter, find,
}
use econiq_ai.Prelude.Text.{Text, codes, newline, is_empty, join, decimal, text_eq, or_else}
use econiq_ai.Ingestion.Documents.{
  Section, ParsedDocument, Parse, parsed, failed, parser_not_available,
}
use econiq_ai.Ingestion.Normalize.{normalize_whitespace}

pub record Pages : Type 0 where
  pub sections : List Section
  pub chunks : List Text
  pub offset : ℕ

abbrev pub page_word : Text
page_word = codes "Page "

abbrev pub blank_line : Text
blank_line = newline ∷ newline ∷ []

unfoldable pub page_section : Pages → ℕ → Text → Section
unfolding decimal
page_section pages number page_text = record {
  index = length pages.sections;
  heading = some (page_word ++ decimal number);
  text = page_text;
  char_start = pages.offset;
  char_end = pages.offset + length page_text;
  level = 1;
}

-- the body of the loop, on a page whose text is normalized
unfoldable pub add_page : ℕ → Text → Pages → Pages
unfolding page_section is_empty
add_page number page_text pages = if is_empty page_text then pages else record {
  sections = pages.sections ++ (page_section pages number page_text ∷ []);
  chunks = pages.chunks ++ (page_text ∷ []);
  offset = pages.offset + (length page_text + 2);
}

unfoldable pub add_pages : ℕ → List Text → Pages → Pages
unfolding add_page normalize_whitespace
add_pages number [] pages = pages
add_pages number (page ∷ rest) pages =
    add_pages (number + 1) rest (add_page number (normalize_whitespace page) pages)

pub record PdfContent : Type 0 where
  pub pages : List Text
  pub metadata : List (Text × Text)

abbrev pub no_pages : Pages
no_pages = record { sections = []; chunks = []; offset = 0 }

abbrev pub title_key : Text
title_key = codes "title"

-- `metadata.get("title")`
unfoldable pub metadata_title : List (Text × Text) → Option Text
unfolding text_eq
metadata_title metadata =
    Option.map (λ (entry : Text × Text). entry.1)
      (find (λ entry. text_eq entry.0 title_key) metadata)

unfoldable pub pdf_document : PdfContent → Option Text → ParsedDocument
unfolding add_pages join or_else is_empty metadata_title
pdf_document content title =
    let read = add_pages 1 content.pages no_pages in
    let metadata = filter (λ (entry : Text × Text). not (is_empty entry.1)) content.metadata in
    record {
      text = join blank_line read.chunks;
      sections = read.sections;
      title = or_else title (metadata_title metadata);
      parser = "pymupdf";
      metadata = metadata;
    }

unfoldable pub parse_pdf : Option PdfContent → Option Text → Parse
unfolding pdf_document
parse_pdf none title = failed parser_not_available
parse_pdf (some content) title = parsed (pdf_document content title)
