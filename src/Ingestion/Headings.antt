-- ===== src/Ingestion/Headings.antt =====
-- parsing.py: `_HEADING`, the three shapes of a heading line. What `\d` takes for a digit is a
-- parameter: it is the Unicode table of `re`.
use econiq_ai.Prelude.{
  ℕ, Bool, false, Option, none, some, [], ◌∷◌, ◌==◌, leb, ◌&&◌, ◌||◌, ◌-◌, if◌then◌else◌, length,
  all,
}
use econiq_ai.Prelude.Text.{Text, is_space, lstrip, strip, is_empty}

-- the first character, and whether a test holds of it
unfoldable pub starts : (ℕ → Bool) → Text → Bool
starts p [] = false
starts p (c ∷ s) = p c

unfoldable pub drop_while : (ℕ → Bool) → Text → Text
drop_while p [] = []
drop_while p (c ∷ s) = if p c then drop_while p s else c ∷ s

abbrev pub is_upper : ℕ → Bool
is_upper c = leb 65 c && leb c 90

-- `[A-Z0-9 ,.'&/():-]`
unfoldable pub is_caps : ℕ → Bool
is_caps c =
    is_upper c
    || (leb 48 c && leb c 58)
    || (c == 32)
    || (c == 44)
    || (c == 46)
    || (c == 39)
    || (c == 38)
    || (c == 47)
    || (c == 40)
    || (c == 41)
    || (c == 45)

abbrev pub is_hash : ℕ → Bool
is_hash c = c == 35

abbrev pub is_dot : ℕ → Bool
is_dot c = c == 46

-- `#{1,6}\s+(.+)`, on a line with no white space at its ends
unfoldable pub markdown : Text → Option (Text × ℕ)
unfolding drop_while starts lstrip is_space
markdown line =
    let body = drop_while is_hash line in
    let level = length line - length body in
    if leb 1 level && leb level 6 && starts is_space body then some (lstrip body, level) else none

-- What is left of the line behind `\d+(?:\.\d+)*\.?`: the flag says that a digit was read last.
unfoldable pub behind_number : (ℕ → Bool) → Bool → Text → Text
unfolding starts
behind_number is_digit after_digit [] = []
behind_number is_digit after_digit (c ∷ s) =
    let rest = behind_number is_digit (is_digit c) s in
    if is_digit c || (after_digit && is_dot c && starts is_digit s)
    then rest
    else if after_digit && is_dot c
    then s
    else c ∷ s

-- `\d+(?:\.\d+)*\.?\s+[A-Z][^\n]{0,90}`, on a line with no line end inside
unfoldable pub numbered : (ℕ → Bool) → Text → Bool
unfolding starts behind_number lstrip is_space
numbered is_digit line =
    let behind = behind_number is_digit false line in
    let title = lstrip behind in
    starts is_digit line && starts is_space behind && starts is_upper title && leb (length title) 91

-- `[A-Z][A-Z0-9 ,.'&/():-]{3,80}`
unfoldable pub caps : Text → Bool
unfolding starts is_caps
caps line = starts is_upper line && all is_caps line && leb 4 (length line) && leb (length line) 81

-- The heading and the level of a stripped line.
unfoldable pub heading_of : (ℕ → Bool) → Text → Option (Text × ℕ)
unfolding is_empty markdown numbered caps strip
heading_of is_digit stripped = if is_empty stripped then none else elim (markdown stripped) [
  | some (title, level) ↦ some (strip title, level)
  | none ↦ if numbered is_digit stripped || caps stripped then some (strip stripped, 1) else none
]
