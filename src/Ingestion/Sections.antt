-- ===== src/Ingestion/Sections.antt =====
-- parsing.py: `detect_sections`.
pub mod Coverage
use econiq_ai.Prelude.{ℕ, Bool, Option, none, some, List, [], ◌∷◌, ltb, ◌+◌, if◌then◌else◌, length}
use econiq_ai.Prelude.Text.{Text, newline, strip, is_empty, slice, split_on}
use econiq_ai.Ingestion.Documents.{Section}
use econiq_ai.Ingestion.Headings.{heading_of}

-- where a section starts, its heading and its level
pub record Start : Type 0 where
  pub offset : ℕ
  pub heading : Option Text
  pub level : ℕ

unfoldable pub starts_from : (ℕ → Bool) → ℕ → List Text → List Start
unfolding heading_of strip
starts_from is_digit offset [] = []
starts_from is_digit offset (line ∷ lines) =
    let rest = starts_from is_digit (offset + length line + 1) lines in
    elim (heading_of is_digit (strip line)) [
      | none ↦ rest
      | some (heading, level) ↦
          record { offset = offset; heading = some heading; level = level } ∷ rest
    ]

-- the section in front of the first heading
abbrev pub preamble : Start
preamble = record { offset = 0; heading = none; level = 1 }

unfoldable pub from_zero : List Start → List Start
from_zero [] = preamble ∷ []
from_zero (start ∷ starts) =
    if ltb 0 start.offset then preamble ∷ start ∷ starts else start ∷ starts

unfoldable pub end_of : Text → List Start → ℕ
end_of text [] = length text
end_of text (next ∷ starts) = next.offset

-- The loop over the starts, with `len(sections)` as the index of the next section.
unfoldable pub sections_from : Text → ℕ → List Start → List Section
unfolding end_of strip is_empty
sections_from text index [] = []
sections_from text index (start ∷ starts) =
    let finish = end_of text starts in
    let body = strip (slice text start.offset finish) in
    let rest = sections_from text (if is_empty body then index else index + 1) starts in
    if is_empty body
    then rest
    else record {
      index = index;
      heading = start.heading;
      text = body;
      char_start = start.offset;
      char_end = finish;
      level = start.level;
    }
      ∷ rest

unfoldable pub detect_sections : (ℕ → Bool) → Text → List Section
unfolding is_empty strip sections_from from_zero starts_from split_on
detect_sections is_digit text =
    if is_empty (strip text)
    then []
    else sections_from text 0 (from_zero (starts_from is_digit 0 (split_on newline text)))
