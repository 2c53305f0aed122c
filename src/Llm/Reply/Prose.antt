-- ===== src/Llm/Reply/Prose.antt =====
-- service.py: `_parse_json` on an object with prose around it.
use mathlib.Core.List.{append_assoc}
use econiq_ai.Prelude.{
  ℕ, suc, ◌+◌, ◌<◌, ◌≡◌, refl, ◌∙◌, ap, sym, subst, true, false, none, some, [], ◌∷◌, ◌++◌, ◌==◌,
  ltb, arith, any, length, length-append,
}
use econiq_ai.Prelude.Text.{Text, strip, is_empty, slice}
use econiq_ai.Prelude.Slices.{slice_middle}
use econiq_ai.Llm.Reply.{
  Loaded, malformed, fenced, open_brace, close_brace, find_char, rfind_char, braced, recover,
  parse_json,
}

abbrev pub Lacks : ℕ → Text → Type 0
Lacks c s = any (λ d. d == c) s ≡ false

find_char-append : (c : ℕ) (s t : Text) → Lacks c s → find_char c (s ++ (c ∷ t)) ≡ some (length s)
unfolding find_char
find_char-append c [] t h = ground arith
find_char-append c (d ∷ s) t h = ground (arith, find_char-append c s t)

rfind_char_fails : (c : ℕ) (s : Text) → Lacks c s → rfind_char c s ≡ none
unfolding rfind_char
rfind_char_fails c [] h = refl
rfind_char_fails c (d ∷ s) h = ground (arith, rfind_char_fails c s)

rfind_char-append : (c : ℕ) (s t : Text) → Lacks c t → rfind_char c (s ++ (c ∷ t)) ≡ some (length s)
unfolding rfind_char
rfind_char-append c [] t h = ground (arith, rfind_char_fails c t)
rfind_char-append c (d ∷ s) t h = ground (arith, rfind_char-append c s t)

-- an object's text
abbrev pub braces : Text → Text
braces inner = open_brace ∷ (inner ++ (close_brace ∷ []))

braced_lem :
    (s : Text) (a b : ℕ)
    → find_char open_brace s ≡ some a
    → rfind_char close_brace s ≡ some b
    → a < b
    → braced s ≡ some (slice s a (b + 1))
unfolding braced
braced_lem s a b p q l = let t : ltb a b ≡ true = ground arith in rw (braced, p, q, t) refl

braced-prose :
    (before inner after : Text)
    → Lacks open_brace before
    → Lacks close_brace after
    → braced (before ++ (braces inner ++ after)) ≡ some (braces inner)
braced-prose before inner after p q =
    let front = before ++ (open_brace ∷ inner) in
    let e : front ++ (close_brace ∷ after) ≡ before ++ (braces inner ++ after) =
      simp append_assoc in
    let n : length front ≡ length before + suc (length inner) =
      length-append before (open_brace ∷ inner) in
    let m : length front + 1 ≡ length before + length (braces inner) =
      omega (arith, n, length-append inner (close_brace ∷ [])) in
    braced_lem (before ++ (braces inner ++ after)) (length before) (length front)
      (find_char-append open_brace before (inner ++ (close_brace ∷ []) ++ after) p)
      (subst (λ s. rfind_char close_brace s ≡ some (length front)) e
        (rfind_char-append close_brace front after q))
      (omega (arith, n))
    ∙ ap some (
        subst (λ k. slice (before ++ (braces inner ++ after)) (length before) k ≡ braces inner)
          (sym m) (slice_middle before (braces inner) after))

recover_lem :
    (loads : Text → Loaded) (stripped body : Text)
    → fenced stripped ≡ none
    → braced stripped ≡ some body
    → recover loads stripped ≡ loads body
unfolding recover
recover_lem loads stripped body f b = rw (recover, f, b) refl

parse_json_lem :
    (loads : Text → Loaded) (text error : Text)
    → is_empty (strip text) ≡ false
    → loads (strip text) ≡ malformed error
    → parse_json loads text ≡ recover loads (strip text)
unfolding parse_json
parse_json_lem loads text error n l = rw (parse_json, n, l) refl

is_empty-braces : (before inner after : Text) → is_empty (before ++ (braces inner ++ after)) ≡ false
unfolding is_empty
is_empty-braces [] inner after = refl
is_empty-braces (c ∷ before) inner after = refl

-- A reply that is no JSON as a whole and has no fence, but has an object in braces with no opening
-- brace before it and no closing brace after it, is read as that object.
pub parse_json-prose :
    (loads : Text → Loaded) (text before inner after error : Text)
    → strip text ≡ before ++ (braces inner ++ after)
    → loads (strip text) ≡ malformed error
    → fenced (strip text) ≡ none
    → Lacks open_brace before
    → Lacks close_brace after
    → parse_json loads text ≡ loads (braces inner)
parse_json-prose loads text before inner after error e l f p q =
    parse_json_lem loads text error (rw e (is_empty-braces before inner after)) l
    ∙ recover_lem loads (strip text) (braces inner) f (rw e (braced-prose before inner after p q))
