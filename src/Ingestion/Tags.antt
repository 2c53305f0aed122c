-- ===== src/Ingestion/Tags.antt =====
-- parsing.py: `_StripTags`. The calls that html.parser makes for a text are a list of events.
pub mod Skipped
use econiq_ai.Prelude.{
  ℕ, String, Bool, true, false, Option, none, some, List, [], ◌∷◌, ◌++◌, ◌-◌, ◌+◌, ltb, ◌&&◌,
  str_eq, any, if◌then◌else◌,
}
use econiq_ai.Prelude.Text.{Text, newline, strip, is_empty}

pub data Markup : Type 0 where
  start_tag end_tag : String → Markup
  characters : Text → Markup

pub record StripTags : Type 0 where
  pub parts : List Text
  pub skipping : ℕ
  pub in_title : Bool
  pub title : Option Text

abbrev pub skip : List String
skip = "script" ∷ "style" ∷ "noscript" ∷ "template" ∷ "svg" ∷ []

abbrev pub block : List String
block =
    "p" ∷ "div" ∷ "section" ∷ "article" ∷ "br" ∷ "li" ∷ "tr" ∷ "h1" ∷ "h2" ∷ "h3" ∷ "h4" ∷ "h5"
    ∷ "h6" ∷ []

unfoldable pub is_skip : String → Bool
is_skip tag = any (str_eq tag) skip

unfoldable pub is_block : String → Bool
is_block tag = any (str_eq tag) block

abbrev pub line_end : Text
line_end = newline ∷ []

unfoldable pub handle_starttag : StripTags → String → StripTags
unfolding is_skip is_block
handle_starttag parser tag =
    if is_skip tag
    then record parser { skipping = parser.skipping + 1 }
    else if str_eq tag "title"
    then record parser { in_title = true }
    else if is_block tag
    then record parser { parts = parser.parts ++ (line_end ∷ []) }
    else parser

unfoldable pub handle_endtag : StripTags → String → StripTags
unfolding is_skip is_block
handle_endtag parser tag =
    if is_skip tag && ltb 0 parser.skipping
    then record parser { skipping = parser.skipping - 1 }
    else if str_eq tag "title"
    then record parser { in_title = false }
    else if is_block tag
    then record parser { parts = parser.parts ++ (line_end ∷ []) }
    else parser

unfoldable pub non_empty : Text → Option Text
unfolding is_empty
non_empty s = if is_empty s then none else some s

unfoldable pub is_none : Option Text → Bool
is_none none = true
is_none (some s) = false

unfoldable pub handle_data : StripTags → Text → StripTags
unfolding strip non_empty is_none
handle_data parser text =
    if ltb 0 parser.skipping
    then parser
    else if parser.in_title && is_none parser.title
    then record parser { title = non_empty (strip text) }
    else record parser { parts = parser.parts ++ (text ∷ []) }

unfoldable pub handle : StripTags → Markup → StripTags
unfolding handle_starttag handle_endtag handle_data
handle parser (start_tag tag) = handle_starttag parser tag
handle parser (end_tag tag) = handle_endtag parser tag
handle parser (characters text) = handle_data parser text

unfoldable pub feed : StripTags → List Markup → StripTags
unfolding handle
feed parser [] = parser
feed parser (event ∷ events) = feed (handle parser event) events

abbrev pub new : StripTags
new = record { parts = []; skipping = 0; in_title = false; title = none }

unfoldable pub concat : List Text → Text
concat [] = []
concat (part ∷ parts) = part ++ concat parts

pub text_of : List Markup → Text
unfolding feed concat
text_of events = concat (feed new events).parts

pub title_of : List Markup → Option Text
unfolding feed
title_of events = (feed new events).title
