-- ===== src/Ingestion/Documents.antt =====
-- parsing.py: `Section` and `ParsedDocument`, and the errors of errors.py that a parse raises.
use econiq_ai.Prelude.{ℕ, String, Bool, Option, List, leb, ltb, ◌&&◌, find}
use econiq_ai.Prelude.Text.{Text, strip, is_empty}

pub record Section : Type 0 where
  pub index : ℕ
  pub heading : Option Text
  pub text : Text
  pub char_start : ℕ
  pub char_end : ℕ
  pub level : ℕ

pub record ParsedDocument : Type 0 where
  pub text : Text
  pub sections : List Section
  pub title : Option Text
  pub parser : String
  pub metadata : List (Text × Text)

unfoldable pub is_empty_document : ParsedDocument → Bool
unfolding is_empty strip
is_empty_document document = is_empty (strip document.text)

unfoldable pub spans : ℕ → Section → Bool
spans char_offset section = leb section.char_start char_offset && ltb char_offset section.char_end

unfoldable pub section_at : ParsedDocument → ℕ → Option Section
unfolding spans
section_at document char_offset = find (spans char_offset) document.sections

-- `parser_crashed` stands for any other exception that a parser raises.
pub data IngestionError : Type 0 where
  unsupported_content_type parser_not_available parser_crashed : IngestionError

pub data Parse : Type 0 where
  parsed : ParsedDocument → Parse
  failed : IngestionError → Parse
