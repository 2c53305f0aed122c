-- ===== src/Ingestion/Parsers/Lookup.antt =====
-- parsing.py: which parser `ParserRegistry.parse` runs.
use econiq_ai.Prelude.{
  ℕ, ◌≡◌, refl, ◌∙◌, ap, inl, inr, Bool, true, false, Option, none, some, List, [], ◌∷◌, ◌++◌,
  arith, any, ◌==◌, if◌then◌else◌, Bool-cases, ◌||◌,
}
use econiq_ai.Prelude.Text.{Text, strip, split_on, text_eq, onto_first}
use econiq_ai.Ingestion.Parsers.{
  Libraries, Parser, ParserRegistry, register_types, register, register_all, parser_for, semicolon,
  first_piece, media_type, parse, run_parser,
}

-- The last parser that claims the content type.
pub claimed : Text → List Parser → Option Parser → Option Parser
claimed content_type [] last = last
claimed content_type (parser ∷ parsers) last =
    claimed content_type parsers
      (if any (text_eq content_type) parser.content_types then some parser else last)

either {ℓ} :
    {A : Type ℓ} (a b : Bool) (x y : A)
    → (if b then x else if a then x else y) ≡ (if a || b then x else y)
either true true x y = refl
either true false x y = refl
either false b x y = refl

register_types-parser_for :
    (t : Text) (types : List Text) (p : Parser) (registry : ParserRegistry)
    → parser_for t (register_types types p registry)
      ≡ (if any (text_eq t) types then some p else parser_for t registry)
unfolding register_types parser_for
register_types-parser_for t [] p registry = refl
register_types-parser_for t (u ∷ types) p registry =
    register_types-parser_for t types p ((u, p) ∷ registry)
    ∙ either (text_eq t u) (any (text_eq t) types) (some p) (parser_for t registry)

register_all_lem :
    (t : Text) (parsers : List Parser) (registry : ParserRegistry)
    → parser_for t (register_all parsers registry) ≡ claimed t parsers (parser_for t registry)
unfolding register_all register claimed
register_all_lem t [] registry = refl
register_all_lem t (p ∷ parsers) registry =
    register_all_lem t parsers (register p registry)
    ∙ ap (claimed t parsers) (register_types-parser_for t p.content_types p registry)

first_piece-onto_first : (c : ℕ) (l : List Text) → first_piece (onto_first c l) ≡ c ∷ first_piece l
unfolding first_piece onto_first
first_piece-onto_first c [] = refl
first_piece-onto_first c (p ∷ l) = refl

-- what stands in front of the first separator
split_on-first :
    (s rest : Text)
    → any (λ c. c == semicolon) s ≡ false
    → first_piece (split_on semicolon (s ++ (semicolon ∷ rest))) ≡ s
unfolding split_on first_piece onto_first
split_on-first [] rest h = refl
split_on-first (c ∷ s) rest h = elim (Bool-cases (c == semicolon)) [
  | inl e ↦ absurd (ground arith)
  | inr e ↦ rw e (
      first_piece-onto_first c (split_on semicolon (s ++ (semicolon ∷ rest)))
      ∙ ap (λ (l : Text). c ∷ l) (split_on-first s rest (ground arith)))
]

-- With a content type followed by parameters, the registry runs the parser registered last among
-- those that claim the type in lower case without blanks around it, and fails with an unsupported
-- content type if none does.
parse_claimed :
    (libraries : Libraries) (parsers : List Parser) (content : List ℕ) (kind parameters : Text)
    (title : Option Text)
    → any (λ c. c == semicolon) kind ≡ false
    → parse libraries (register_all parsers []) content (kind ++ (semicolon ∷ parameters)) title
      ≡ run_parser (claimed (libraries.lower (strip kind)) parsers none) content title
unfolding parse media_type
parse_claimed libraries parsers content kind parameters title h =
    ap
      (λ (t : Text).
        run_parser (parser_for (libraries.lower (strip t)) (register_all parsers [])) content title)
      (split_on-first kind parameters h)
    ∙ ap (λ (o : Option Parser). run_parser o content title)
        (register_all_lem (libraries.lower (strip kind)) parsers [])
