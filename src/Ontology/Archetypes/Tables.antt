-- ===== src/Ontology/Archetypes/Tables.antt =====
-- `_linear` of archetypes.py: a table of transitions as a dictionary of sets.
use econiq_ai.Prelude.{
  Bool, false, ◌||◌, List, [], ◌∷◌, ◌++◌, key_error, Result, ok, err, if◌then◌else◌, any, map,
}
use econiq_ai.Ontology.Labels.{ProcessStateLabel, same_state}

abbrev pub Table : Type 0
Table = List (ProcessStateLabel × List ProcessStateLabel)

abbrev pub is_member : ProcessStateLabel → List ProcessStateLabel → Bool
is_member s xs = any (λ x. same_state s x) xs

-- `table.get(s)`, with the empty set for a missing key.
unfoldable pub targets : ProcessStateLabel → Table → List ProcessStateLabel
targets s [] = []
targets s ((k, reached) ∷ rest) = if same_state s k then reached else targets s rest

unfoldable pub has_key : ProcessStateLabel → Table → Bool
has_key s [] = false
has_key s ((k, reached) ∷ rest) = same_state s k || has_key s rest

-- `table[origin].update(new)` where the key is there.
unfoldable pub extend : ProcessStateLabel → List ProcessStateLabel → Table → Table
extend origin new [] = []
extend origin new ((k, reached) ∷ rest) =
    if same_state origin k
    then (k, reached ++ new) ∷ rest
    else (k, reached) ∷ extend origin new rest

unfoldable pub update_table : ProcessStateLabel → List ProcessStateLabel → Table → Result Table
unfolding has_key extend
update_table origin new table =
    if has_key origin table then ok (extend origin new table) else err key_error

-- `for origin, target in pairwise(states)`
unfoldable pub add_pairs : List ProcessStateLabel → Table → Table
unfolding extend
add_pairs [] table = table
add_pairs (a ∷ []) table = table
add_pairs (a ∷ b ∷ rest) table = add_pairs (b ∷ rest) (extend a (b ∷ []) table)

unfoldable pub add_extra : Table → Table → Result Table
unfolding update_table
add_extra [] table = ok table
add_extra ((origin, new) ∷ rest) table = elim (update_table origin new table) [
  | err e ↦ err e
  | ok next ↦ add_extra rest next
]

-- Sets are lists, so a target added twice is listed twice: `is_member` does not see that.
unfoldable pub linear : List ProcessStateLabel → Table → Result Table
unfolding add_pairs add_extra
linear states extra = add_extra extra (add_pairs states (map (λ s. (s, [])) states))
