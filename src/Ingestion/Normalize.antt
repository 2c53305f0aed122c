-- ===== src/Ingestion/Normalize.antt =====
-- parsing.py: `normalize_whitespace`.
use econiq_ai.Prelude.{ℕ, Bool, false, [], ◌∷◌, map, ◌==◌, leb, ◌&&◌, ◌||◌, ◌+◌, if◌then◌else◌}
use econiq_ai.Prelude.Text.{Text, newline, strip, split_on, join}

unfoldable pub starts_with_newline : Text → Bool
starts_with_newline [] = false
starts_with_newline (c ∷ s) = c == newline

-- `replace("\r\n", "\n")`
unfoldable pub replace_crlf : Text → Text
unfolding starts_with_newline
replace_crlf [] = []
replace_crlf (c ∷ s) =
    let rest = replace_crlf s in if (c == 13) && starts_with_newline s then rest else c ∷ rest

unfoldable pub replace_char : ℕ → ℕ → Text → Text
replace_char old new = map (λ c. if c == old then new else c)

-- `_WHITESPACE`: blank, tab, carriage return, form feed and vertical tab
unfoldable pub is_run_space : ℕ → Bool
is_run_space c = (c == 32) || (c == 9) || (c == 13) || (c == 12) || (c == 11)

-- A run becomes one blank; the flag says that the run has begun.
unfoldable pub collapse_runs : Bool → Text → Text
unfolding is_run_space
collapse_runs in_run [] = []
collapse_runs in_run (c ∷ s) =
    let rest = collapse_runs (is_run_space c) s in
    if is_run_space c then (if in_run then rest else 32 ∷ rest) else c ∷ rest

-- `_BLANK_LINES`: of a run of line ends two stay; `n` of the run are behind.
unfoldable pub collapse_blank_lines : ℕ → Text → Text
collapse_blank_lines n [] = []
collapse_blank_lines n (c ∷ s) =
    let rest = collapse_blank_lines (if c == newline then n + 1 else 0) s in
    if (c == newline) && leb 2 n then rest else c ∷ rest

unfoldable pub normalize_whitespace : Text → Text
unfolding replace_char replace_crlf collapse_runs strip split_on join collapse_blank_lines
normalize_whitespace text =
    let plain = replace_char 13 newline (replace_crlf (replace_char 160 32 text)) in
    let lines = map strip (split_on newline (collapse_runs false plain)) in
    strip (collapse_blank_lines 0 (join (newline ∷ []) lines))
