-- ===== src/Evidence/Independence.antt =====
-- independence.py: `assess_independence`. `tokens` is what the regular expression of the module
-- finds in a text in lower case; the threshold is a fraction.
pub mod Suppressed
use Prim.Native.String.{◌++◌ as concat}
use econiq_ai.Prelude.{
  ℕ, zero, suc, ◌+◌, ◌-◌, ◌*◌, Bool, true, false, not, ◌&&◌, ◌||◌, Option, none, some, List, [],
  ◌∷◌, ◌++◌, String, ltb, leb, if◌then◌else◌, any, filter, length, map, take, str_eq,
}
use econiq_ai.Prelude.Sorting.{sort_by}
use econiq_ai.Evidence.Clustering.{text_before}

pub record SourceDocument : Type 0 where
  pub document_id : String
  pub publisher : Option String
  pub text : String

-- Members of a set of texts.
abbrev pub is_in : List String → String → Bool
is_in set s = any (λ t. str_eq s t) set

abbrev pub as_set : List String → List String
as_set [] = []
as_set (s ∷ rest) = if is_in rest s then as_set rest else s ∷ as_set rest

-- `" ".join`
abbrev pub spaced : List String → String
spaced [] = ""
spaced (s ∷ []) = s
spaced (s ∷ t ∷ rest) = concat s (concat " " (spaced (t ∷ rest)))

-- The windows of `size` tokens, one from each place that has as many left.
abbrev pub windows : ℕ → List String → List String
windows size [] = []
windows size (s ∷ rest) =
    let more = windows size rest in
    if ltb (length (s ∷ rest)) size then more else spaced (take size (s ∷ rest)) ∷ more

abbrev pub shingles : List String → List String
shingles found =
    if ltb (length found) 5
    then if ltb 0 (length found) then spaced found ∷ [] else []
    else as_set (windows 5 found)

-- `jaccard(left, right) >= top / bottom`
abbrev pub overlaps : ℕ → ℕ → List String → List String → Bool
overlaps top bottom left right =
    let common = length (filter (is_in right) left) in
    if leb (length left) 0 || leb (length right) 0
    then leb top 0
    else leb (top * (length left + length right - common)) (common * bottom)

-- A group: its first document, the shingles of that, and the documents added to it.
pub record Group : Type 0 where
  pub first : SourceDocument
  pub group_shingles : List String
  pub added : List SourceDocument

abbrev pub same_name : Option String → Option String → Bool
same_name none other = false
same_name (some p) none = false
same_name (some p) (some q) = str_eq p q

abbrev pub kept_before : Group → Option (List Group × Bool) → Option (List Group × Bool)
kept_before g none = none
kept_before g (some (groups, copied)) = some (g ∷ groups, copied)

module _ (tokens : String → List String) (top bottom : ℕ) where
  abbrev pub shingles_of : SourceDocument → List String
  shingles_of d = shingles (tokens d.text)

  -- The loop over the groups: the first one that fits, and whether the text alone decided.
  unfoldable pub place : SourceDocument → List Group → Option (List Group × Bool)
  place d [] = none
  place d (g ∷ groups) =
      let same_publisher = same_name d.publisher g.first.publisher in
      let copied = overlaps top bottom (shingles_of d) g.group_shingles in
      let later = place d groups in
      if same_publisher || copied
      then some (record g { added = g.added ++ d ∷ [] } ∷ groups, copied && not same_publisher)
      else kept_before g later

  abbrev pub with_place :
      SourceDocument
      → List Group
      → List String
      → Option (List Group × Bool)
      → List Group × List String
  with_place d groups syndicated none =
      (groups ++ record { first = d; group_shingles = shingles_of d; added = [] } ∷ [], syndicated)
  with_place d groups syndicated (some (placed, copied)) =
      (placed, if copied then syndicated ++ d.document_id ∷ [] else syndicated)

  -- The loop over the documents.
  unfoldable pub group_all :
      List SourceDocument → List Group → List String → List Group × List String
  unfolding place
  group_all [] groups syndicated = (groups, syndicated)
  group_all (d ∷ rest) groups syndicated =
      let next = with_place d groups syndicated (place d groups) in group_all rest next.0 next.1

abbrev pub ids_of : Group → List String
ids_of g = g.first.document_id ∷ map (λ (d : SourceDocument). d.document_id) g.added

abbrev pub names_of : List SourceDocument → List String
names_of [] = []
names_of (d ∷ rest) = elim d.publisher [
  | none ↦ names_of rest
  | some p ↦ if str_eq p "" then names_of rest else p ∷ names_of rest
]

pub record IndependenceAssessment : Type 0 where
  pub independent_source_count : ℕ
  pub groups : List (List String)
  pub publishers : List String
  pub syndicated_document_ids : List String

unfoldable pub assess_independence :
    (String → List String) → ℕ → ℕ → List SourceDocument → IndependenceAssessment
unfolding group_all
assess_independence tokens top bottom documents =
    let result = group_all tokens top bottom documents [] [] in
    record {
      independent_source_count = length result.0;
      groups = map ids_of result.0;
      publishers = sort_by text_before (as_set (names_of documents));
      syndicated_document_ids = result.1;
    }

-- `suppressed`
unfoldable pub suppressed_in : List (List String) → ℕ
suppressed_in [] = 0
suppressed_in (ids ∷ rest) = (length ids - 1) + suppressed_in rest

unfoldable pub suppressed : IndependenceAssessment → ℕ
unfolding suppressed_in
suppressed a = suppressed_in a.groups
