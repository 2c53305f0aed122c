-- ===== src/Orchestration/Registrations.antt =====
-- stages.py: `StageRegistry`, the handlers that are bound to the stages of the pipeline.
use econiq_ai.Prelude.{
  ◌≡◌, ◌↔◌, refl, sym, ◌∙◌, inl, inr, Bool, true, false, not, ◌&&◌, ◌||◌, none, some, List, [], ◌∷◌,
  map, filter, any, String, str_eq, str_eq_iff, Bool-cases, if◌then◌else◌, ltb, ◌==◌, In, Result,
  ok, err, key_error,
}
use econiq_ai.Prelude.Text.{Text, codes}
use econiq_ai.Prelude.Sorting.{sort_by, In-sort, sort-In}
use econiq_ai.Prelude.Membership.{In-filter, filter-In}
use econiq_ai.Orchestration.Stages.{StageDefinition, pipeline}
use econiq_ai.Orchestration.Handlers.{Handler, Registry, handler_for}

-- The order of `str`.
unfoldable pub text_before : Text → Text → Bool
text_before [] [] = false
text_before [] (d ∷ t) = true
text_before (c ∷ s) [] = false
text_before (c ∷ s) (d ∷ t) = ltb c d || ((c == d) && text_before s t)

abbrev pub str_before : String → String → Bool
str_before a b = text_before (codes a) (codes b)

-- `BY_NAME`, whose keys are the names of the pipeline
abbrev pub stage_names : List String
stage_names = map (λ (s : StageDefinition). s.name) pipeline

unfoldable pub bind_handler : String → Handler → Registry → Registry
bind_handler stage handler [] = (stage, handler) ∷ []
bind_handler stage handler ((name, other) ∷ rest) =
    if str_eq name stage
    then (name, handler) ∷ rest
    else (name, other) ∷ bind_handler stage handler rest

unfoldable pub register_stage : String → Handler → Registry → Result Registry
unfolding bind_handler
register_stage stage handler registry =
    if any (λ name. str_eq name stage) stage_names
    then ok (bind_handler stage handler registry)
    else err key_error

unfoldable pub registered : Registry → List String
unfolding text_before
registered registry = sort_by str_before (map (λ (entry : String × Handler). entry.0) registry)

abbrev pub has_handler : Registry → String → Bool
has_handler registry stage = any (λ (entry : String × Handler). str_eq entry.0 stage) registry

unfoldable pub unregistered : Registry → List String
unfolding text_before
unregistered registry =
    sort_by str_before (filter (λ name. not (has_handler registry name)) stage_names)

has_handler-handler_for :
    (registry : Registry) (stage : String)
    → (not (has_handler registry stage) ≡ true) ↔ (handler_for registry stage ≡ none)
unfolding handler_for
has_handler-handler_for [] stage = (λ e. refl, λ e. refl)
has_handler-handler_for ((name, handler) ∷ rest) stage = elim (Bool-cases (str_eq name stage)) [
  | inl e ↦ rw e (λ h. cc, λ h. cc)
  | inr e ↦ rw e (has_handler-handler_for rest stage)
]

-- `unregistered` names the stages of the pipeline that the worker finds no handler for.
unregistered_iff :
    (registry : Registry) (stage : String)
    → In stage (unregistered registry)
      ↔ (In stage stage_names × (handler_for registry stage ≡ none))
unfolding unregistered
unregistered_iff registry stage =
    let missing : String → Bool = λ name. not (has_handler registry name) in
    let (there, back) = has_handler-handler_for registry stage in
    (
      λ m.
          let (i, e) =
            In-filter stage missing stage_names
              (In-sort str_before stage (filter missing stage_names) m) in
          (i, there e),
      λ (i, e).
          sort-In str_before stage (filter missing stage_names)
            (filter-In stage missing stage_names i (back e)),
    )

-- A handler that is registered is the one that is found, and the others are found as before.
handler_for-bind_handler :
    (registry : Registry) (stage other : String) (handler : Handler)
    → handler_for (bind_handler stage handler registry) other
      ≡ (if str_eq stage other then some handler else handler_for registry other)
unfolding handler_for bind_handler
handler_for-bind_handler [] stage other handler = refl
handler_for-bind_handler ((name, old) ∷ rest) stage other handler =
    elim (Bool-cases (str_eq name stage)) [
      | inl e ↦
          let same = (str_eq_iff name stage).0 e in
          rw e (elim (Bool-cases (str_eq stage other)) [
            | inl f ↦ rw (same, f) refl
            | inr f ↦ rw (same, f) refl
          ])
      | inr e ↦
          let rest_found = handler_for-bind_handler rest stage other handler in
          rw e (elim (Bool-cases (str_eq name other)) [
            | inl f ↦
                let away : str_eq stage other ≡ false = elim (Bool-cases (str_eq stage other)) [
                  | inl g ↦
                      let same : name ≡ stage =
                        (str_eq_iff name other).0 f ∙ sym ((str_eq_iff stage other).0 g) in
                      cc ((str_eq_iff name stage).1 same, e)
                  | inr g ↦ g
                ] in
                rw (f, away) refl
            | inr f ↦ rw f rest_found
          ])
    ]
