-- ===== src/Ingestion/Parsers.antt =====
-- parsing.py: the parsers of plain text and HTML, and `ParserRegistry`. Decoding, `str.lower`,
-- html.parser and trafilatura are parameters; `none` in place of trafilatura stands for its absence.
pub mod Lookup
use econiq_ai.Prelude.{
  ℕ, String, Bool, Option, none, some, List, [], ◌∷◌, ◌==◌, ◌||◌, any, find, if◌then◌else◌,
}
use econiq_ai.Prelude.Text.{Text, strip, is_empty, split_on, text_eq, or_else}
use econiq_ai.Ingestion.Documents.{ParsedDocument, Parse, parsed, failed, unsupported_content_type}
use econiq_ai.Ingestion.Normalize.{normalize_whitespace}
use econiq_ai.Ingestion.Sections.{detect_sections}
use econiq_ai.Ingestion.Tags.{Markup, text_of, title_of}

-- what the libraries give
pub record Libraries : Type 0 where
  pub decode : List ℕ → Text
  pub is_digit : ℕ → Bool
  pub lower : Text → Text
  pub markup : Text → List Markup
  pub trafilatura : Option (Text → Option Text)

unfoldable pub plain_text_parse : Libraries → List ℕ → Option Text → Parse
unfolding normalize_whitespace detect_sections
plain_text_parse libraries content title =
    let text = normalize_whitespace (libraries.decode content) in
    parsed (record {
      text = text;
      sections = detect_sections libraries.is_digit text;
      title = title;
      parser = "plain_text";
      metadata = [];
    })

-- `HtmlParser._extract`
pub extract : Libraries → Text → Text × String
extract libraries decoded =
    let stdlib : Text × String = (text_of (libraries.markup decoded), "html_stdlib") in
    elim libraries.trafilatura [
      | none ↦ stdlib
      | some run ↦ elim (run decoded) [
        | none ↦ stdlib
        | some extracted ↦ if is_empty extracted then stdlib else (extracted, "trafilatura")
      ]
    ]

unfoldable pub html_parse : Libraries → List ℕ → Option Text → Parse
unfolding normalize_whitespace detect_sections extract or_else
html_parse libraries content title =
    let decoded = libraries.decode content in
    let text = normalize_whitespace (extract libraries decoded).0 in
    parsed (record {
      text = text;
      sections = detect_sections libraries.is_digit text;
      title = or_else title (title_of (libraries.markup decoded));
      parser = (extract libraries decoded).1;
      metadata = [];
    })

pub record Parser : Type 0 where
  pub content_types : List Text
  pub parse : List ℕ → Option Text → Parse

-- The dictionary from content types to parsers: an entry in front hides those behind it.
abbrev pub ParserRegistry : Type 0
ParserRegistry = List (Text × Parser)

unfoldable pub register_types : List Text → Parser → ParserRegistry → ParserRegistry
register_types [] parser registry = registry
register_types (content_type ∷ content_types) parser registry =
    register_types content_types parser ((content_type, parser) ∷ registry)

unfoldable pub register : Parser → ParserRegistry → ParserRegistry
unfolding register_types
register parser registry = register_types parser.content_types parser registry

unfoldable pub register_all : List Parser → ParserRegistry → ParserRegistry
unfolding register
register_all [] registry = registry
register_all (parser ∷ parsers) registry = register_all parsers (register parser registry)

unfoldable pub parser_for : Text → ParserRegistry → Option Parser
parser_for content_type [] = none
parser_for content_type ((key, parser) ∷ registry) =
    if text_eq content_type key then some parser else parser_for content_type registry

abbrev pub semicolon : ℕ
semicolon = 59

unfoldable pub first_piece : List Text → Text
first_piece [] = []
first_piece (piece ∷ pieces) = piece

-- `content_type.split(";")[0].strip().lower()`
unfoldable pub media_type : Libraries → Text → Text
unfolding first_piece split_on strip
media_type libraries content_type =
    libraries.lower (strip (first_piece (split_on semicolon content_type)))

unfoldable pub run_parser : Option Parser → List ℕ → Option Text → Parse
run_parser none content title = failed unsupported_content_type
run_parser (some parser) content title = parser.parse content title

-- `ParserRegistry.parse`
unfoldable pub parse : Libraries → ParserRegistry → List ℕ → Text → Option Text → Parse
unfolding parser_for media_type run_parser
parse libraries registry content content_type title =
    run_parser (parser_for (media_type libraries content_type) registry) content title
