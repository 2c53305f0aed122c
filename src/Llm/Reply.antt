-- ===== src/Llm/Reply.antt =====
-- service.py: `_parse_json`, which finds the JSON in a reply. What json.loads makes of a text is a
-- parameter.
pub mod Prose
use econiq_ai.Prelude.{
  ℕ, suc, ◌+◌, Bool, true, Option, none, some, List, [], ◌∷◌, ◌==◌, ltb, if◌then◌else◌,
}
use econiq_ai.Prelude.Text.{Text, codes, strip, lstrip, is_empty, slice}
use econiq_ai.Llm.Json.{Json}

-- a value, or the text of a ValueError
pub data Loaded : Type 0 where
  loaded : Json → Loaded
  malformed : Text → Loaded

-- what is left of a text behind a prefix that it has
unfoldable pub remove_prefix : Text → Text → Option Text
remove_prefix [] s = some s
remove_prefix (c ∷ prefix) [] = none
remove_prefix (c ∷ prefix) (d ∷ s) =
    let rest = remove_prefix prefix s in if c == d then rest else none

-- the text behind the first occurrence of a mark, and the text in front of it
unfoldable pub behind : Text → Text → Option Text
unfolding remove_prefix
behind mark [] = remove_prefix mark []
behind mark (c ∷ s) =
    let rest = behind mark s in elim (remove_prefix mark (c ∷ s)) [ some r ↦ some r | none ↦ rest ]

unfoldable pub in_front : Text → Text → Option Text
unfolding remove_prefix
in_front mark [] = elim (remove_prefix mark []) [ some r ↦ some [] | none ↦ none ]
in_front mark (c ∷ s) =
    let rest = in_front mark s in
    elim (remove_prefix mark (c ∷ s)) [
      | some r ↦ some []
      | none ↦ elim rest [ some front ↦ some (c ∷ front) | none ↦ none ]
    ]

abbrev pub ticks : Text
ticks = codes "```"

-- The group of `_FENCE_RE`. The first fence that opens decides whether there is a match.
unfoldable pub fenced : Text → Option Text
unfolding behind in_front remove_prefix lstrip
fenced s = elim (behind ticks s) [
  | none ↦ none
  | some opened ↦ elim (remove_prefix (codes "json") opened) [
    | some body ↦ in_front ticks (lstrip body)
    | none ↦ in_front ticks (lstrip opened)
  ]
]

abbrev pub open_brace : ℕ
open_brace = 123

abbrev pub close_brace : ℕ
close_brace = 125

-- `s.find` and `s.rfind` of one character
unfoldable pub find_char : ℕ → Text → Option ℕ
find_char c [] = none
find_char c (d ∷ s) =
    let rest = find_char c s in
    if d == c then some 0 else elim rest [ some n ↦ some (suc n) | none ↦ none ]

unfoldable pub rfind_char : ℕ → Text → Option ℕ
rfind_char c [] = none
rfind_char c (d ∷ s) = elim (rfind_char c s) [
  | some n ↦ some (suc n)
  | none ↦ if d == c then some 0 else none
]

-- the part from the first opening brace to the last closing one
unfoldable pub braced : Text → Option Text
unfolding find_char rfind_char
braced s = elim (find_char open_brace s) [
  | none ↦ none
  | some start ↦ elim (rfind_char close_brace s) [
    | none ↦ none
    | some finish ↦ if ltb start finish then some (slice s start (finish + 1)) else none
  ]
]

module _ (loads : Text → Loaded) where
  -- what is tried when the whole reply is no JSON
  unfoldable pub recover : Text → Loaded
  unfolding fenced braced strip
  recover stripped = elim (fenced stripped) [
    | some body ↦ loads (strip body)
    | none ↦ elim (braced stripped) [
      | some body ↦ loads body
      | none ↦ malformed (codes "model response contained no JSON object")
    ]
  ]

  unfoldable pub parse_json : Text → Loaded
  unfolding strip is_empty recover
  parse_json text =
      if is_empty (strip text)
      then malformed (codes "model returned an empty response")
      else elim (loads (strip text)) [
        | loaded value ↦ loaded value
        | malformed error ↦ recover (strip text)
      ]
