-- ===== src/Orchestration/Stages/Keys.antt =====
-- `StageDefinition.key_for` of stages.py: different units of work have different keys.
use Prim.Native.Char.{Char, code}
use Prim.Native.String.{◌++◌, [], ◌∷◌}
use Prim.Native.String.append
use econiq_ai.Prelude.{
  ℕ, ◌≡◌, ◌≢◌, refl, sym, ap, ◌∙◌, Bool, true, false, not, ◌&&◌, String, Option, none, some, In,
  ◌==◌, all, arith,
}
use econiq_ai.Prelude.Membership.{all-In}
use econiq_ai.Orchestration.Stages.{StageDefinition, key_for, pipeline}

-- No colon in a text.
abbrev pub is_plain : String → Bool
is_plain [] = true
is_plain (c ∷ s) = not (code c == b':') && is_plain s

abbrev colon : Char
colon = ":"

behind_colon : (u : String) → [] ++ (":" ++ u) ≡ colon ∷ u
behind_colon u = append.nil (":" ++ u) ∙ append.cons colon [] u ∙ ap (λ s. colon ∷ s) (append.nil u)

after_colon : (c d : Char) (s t : String) → c ∷ s ≡ d ∷ t → (c ≡ d) × (s ≡ t)
after_colon c d s t e = (cc, cc)

colon_not_plain : (c : Char) (s : String) → colon ≡ c → is_plain (c ∷ s) ≡ false
colon_not_plain c s e = rw (← e)

-- A name without a colon ends where the first colon stands.
split_at_colon :
    (s t u v : String)
    → is_plain s ≡ true
    → is_plain t ≡ true
    → s ++ (":" ++ u) ≡ t ++ (":" ++ v)
    → (s ≡ t) × (u ≡ v)
split_at_colon [] [] u v h k e =
    (refl, (after_colon colon colon u v (sym (behind_colon u) ∙ e ∙ behind_colon v)).1)
split_at_colon [] (c ∷ t) u v h k e =
    let q = after_colon colon c u _ (sym (behind_colon u) ∙ e ∙ append.cons c t _) in
    absurd (cc (colon_not_plain c t q.0))
split_at_colon (c ∷ s) [] u v h k e =
    let q = after_colon colon c v _ (sym (behind_colon v) ∙ sym e ∙ append.cons c s _) in
    absurd (cc (colon_not_plain c s q.0))
split_at_colon (c ∷ s) (d ∷ t) u v h k e =
    let q = after_colon c d _ _ (sym (append.cons c s _) ∙ e ∙ append.cons d t _) in
    let (es, eu) = split_at_colon s t u v (ground arith) (ground arith) q.1 in (cc (q.0, es), eu)

plain_has_none : (s u t : String) → is_plain t ≡ true → s ++ (":" ++ u) ≢ t
plain_has_none [] u [] k e = cc (sym (behind_colon u) ∙ e)
plain_has_none [] u (c ∷ t) k e =
    cc (colon_not_plain c t (after_colon colon c u t (sym (behind_colon u) ∙ e)).0)
plain_has_none (c ∷ s) u [] k e = cc (sym (append.cons c s (":" ++ u)) ∙ e)
plain_has_none (c ∷ s) u (d ∷ t) k e =
    plain_has_none s u t (ground arith)
      (after_colon c d _ t (sym (append.cons c s (":" ++ u)) ∙ e)).1

names_are_plain : all (λ (s : StageDefinition). is_plain s.name) pipeline ≡ true
names_are_plain = refl

-- Two units of work of the pipeline have one idempotency key only if their stages have one name
-- and their subjects are the same, if different UUIDs print differently.
pub key_for-injective :
    (show_uuid : ℕ → String)
    → ((i j : ℕ) → show_uuid i ≡ show_uuid j → i ≡ j)
    → (a b : StageDefinition) (s t : Option ℕ) → In a pipeline
    → In b pipeline
    → key_for show_uuid a s ≡ key_for show_uuid b t
    → (a.name ≡ b.name) × (s ≡ t)
unfolding key_for
key_for-injective show_uuid inj a b s t ma mb e = keys s t e
  where
    plain_a : is_plain a.name ≡ true
    plain_a = all-In a (λ (s : StageDefinition). is_plain s.name) pipeline names_are_plain ma

    plain_b : is_plain b.name ≡ true
    plain_b = all-In b (λ (s : StageDefinition). is_plain s.name) pipeline names_are_plain mb

    keys :
        (s t : Option ℕ)
        → key_for show_uuid a s ≡ key_for show_uuid b t
        → (a.name ≡ b.name) × (s ≡ t)
    keys none none e = (e, refl)
    keys none (some j) e = absurd (plain_has_none b.name (show_uuid j) a.name plain_a (sym e))
    keys (some i) none e = absurd (plain_has_none a.name (show_uuid i) b.name plain_b e)
    keys (some i) (some j) e =
        let (names, texts) =
          split_at_colon a.name b.name (show_uuid i) (show_uuid j) plain_a plain_b e in
        (names, ap some (inj i j texts))
