-- ===== src/Ingestion/Tags/Skipped.antt =====
-- parsing.py: what `_StripTags` leaves out.
use mathlib.Core.List.{append-nil, append_assoc}
use econiq_ai.Prelude.Text.{Text}
use econiq_ai.Prelude.{
  ℕ, String, ◌+◌, ◌-◌, ◌<◌, ◌≡◌, refl, sym, ◌∙◌, inl, inr, Bool, true, false, Option, none, some,
  List, [], ◌∷◌, ◌++◌, zero, suc, arith, leb, ltb, ◌&&◌, if◌then◌else◌, str_eq, Bool-cases,
}
use econiq_ai.Ingestion.Tags.{
  Markup, start_tag, end_tag, characters, StripTags, line_end, is_skip, is_block, handle_starttag,
  handle_endtag, handle_data, handle, feed,
}

-- How deep in skipped tags the events lead, from a nesting above zero: `none` if they leave the tag.
unfoldable pub nesting : ℕ → List Markup → Option ℕ
nesting n [] = some n
nesting n (start_tag tag ∷ events) = nesting (if is_skip tag then n + 1 else n) events
nesting n (end_tag tag ∷ events) =
    let rest = nesting (if is_skip tag then n - 1 else n) events in
    if is_skip tag && leb n 1 then none else rest
nesting n (characters text ∷ events) = nesting n events

-- so many line ends
pub breaks : ℕ → List Text
breaks zero = []
breaks (suc n) = line_end ∷ breaks n

breaks-add : (m n : ℕ) → breaks m ++ breaks n ≡ breaks (m + n)
unfolding breaks
breaks-add zero n = let e : 0 + n ≡ n = omega arith in rw e refl
breaks-add (suc m) n = let e : suc m + n ≡ suc (m + n) = omega arith in rw e (cc (breaks-add m n))

-- The title stays, and nothing but line ends is added.
abbrev pub HasOnlyBreaks : StripTags → StripTags → Type 0
HasOnlyBreaks before after =
    (after.title ≡ before.title) × (n : ℕ) × (after.parts ≡ before.parts ++ breaks n)

trans : (a b c : StripTags) → HasOnlyBreaks a b → HasOnlyBreaks b c → HasOnlyBreaks a c
trans a b c (p, m, e) (q, n, f) = (q ∙ p, m + n, f ∙ rw (e, append_assoc, breaks-add m n) refl)

-- What a tag does that opens or closes nothing skipped.
abbrev plain_tag : StripTags → Bool → Bool → Bool → StripTags
plain_tag parser is_title is_break value =
    if is_title
    then record parser { in_title = value }
    else if is_break
    then record parser { parts = parser.parts ++ (line_end ∷ []) }
    else parser

plain_tag_lem :
    (parser : StripTags) (t b value : Bool)
    → HasOnlyBreaks parser (plain_tag parser t b value)
      × ((plain_tag parser t b value).skipping ≡ parser.skipping)
unfolding breaks
plain_tag_lem parser true b value = ((refl, 0, sym (append-nil parser.parts)), refl)
plain_tag_lem parser false true value = ((refl, 1, refl), refl)
plain_tag_lem parser false false value = ((refl, 0, sym (append-nil parser.parts)), refl)

deeper-HasOnlyBreaks :
    (parser : StripTags) (n : ℕ) → HasOnlyBreaks parser (record parser { skipping = n })
unfolding breaks
deeper-HasOnlyBreaks parser n = (refl, 0, sym (append-nil parser.parts))

handle_starttag_lem :
    (parser : StripTags) (tag : String)
    → HasOnlyBreaks parser (handle_starttag parser tag)
      × ((handle_starttag parser tag).skipping
          ≡ (if is_skip tag then parser.skipping + 1 else parser.skipping))
unfolding handle_starttag
handle_starttag_lem parser tag = elim (Bool-cases (is_skip tag)) [
  | inl e ↦ rw e (deeper-HasOnlyBreaks parser (parser.skipping + 1), refl)
  | inr e ↦ rw e (plain_tag_lem parser (str_eq tag "title") (is_block tag) true)
]

handle_endtag_lem :
    (parser : StripTags) (tag : String)
    → 0 < parser.skipping
    → HasOnlyBreaks parser (handle_endtag parser tag)
      × ((handle_endtag parser tag).skipping
          ≡ (if is_skip tag then parser.skipping - 1 else parser.skipping))
unfolding handle_endtag
handle_endtag_lem parser tag h =
    let e : ltb 0 parser.skipping ≡ true = ground arith in
    elim (Bool-cases (is_skip tag)) [
      | inl s ↦ rw (s, e) (deeper-HasOnlyBreaks parser (parser.skipping - 1), refl)
      | inr s ↦ rw s (plain_tag_lem parser (str_eq tag "title") (is_block tag) false)
    ]

handle_data_lem :
    (parser : StripTags) (text : Text) → 0 < parser.skipping → handle_data parser text ≡ parser
unfolding handle_data
handle_data_lem parser text h = let e : ltb 0 parser.skipping ≡ true = ground arith in rw e refl

-- While the markup stays inside a skipped tag, the parser adds nothing but line ends to the text
-- and keeps the title, and it counts how deep in skipped tags it is.
feed_skips :
    (parser : StripTags) (events : List Markup) (n : ℕ)
    → 0 < parser.skipping
    → nesting parser.skipping events ≡ some n
    → ((feed parser events).skipping ≡ n) × HasOnlyBreaks parser (feed parser events)
unfolding feed handle nesting breaks
feed_skips parser [] n h d = (ground arith, (refl, 0, sym (append-nil parser.parts)))
feed_skips parser (characters text ∷ events) n h d =
    rw (feed, handle, handle_data_lem parser text h) (feed_skips parser events n h d)
feed_skips parser (start_tag tag ∷ events) n h d =
    let (b, s) = handle_starttag_lem parser tag in
    let (e, c) = feed_skips (handle_starttag parser tag) events n (ground arith) (rw s d) in
    (e, trans parser (handle_starttag parser tag) (feed (handle_starttag parser tag) events) b c)
feed_skips parser (end_tag tag ∷ events) n h d =
    let (b, s) = handle_endtag_lem parser tag h in
    let (e, c) =
      feed_skips (handle_endtag parser tag) events n (ground arith) (rw s (ground arith)) in
    (e, trans parser (handle_endtag parser tag) (feed (handle_endtag parser tag) events) b c)
