-- ===== src/Evidence/Examples.antt =====
-- The theorems about evidence at concrete events.
use econiq_ai.Prelude.{◌≤◌, ℕ, some, String, refl, ◌↔◌, inl, inr, List, [], ◌∷◌, In}
use econiq_ai.Evidence.Clustering.{Clustering}
use econiq_ai.Evidence.Dependence.{Dependence, EvidenceItem, finding}
use econiq_ai.Evidence.Independence.{SourceDocument}
use econiq_ai.Evidence.Sources.{count_of, effective_sources}
use econiq_ai.Evidence.Sources.Components.{Linked}
use econiq_ai.Evidence.Sources.Used.{used}
use econiq_ai.Evidence.Sources.Partition.{effective_sources_iff}
use econiq_ai.Evidence.Sources.Totals.{effective_sources-bounds}

abbrev an_event : ℕ → List ℕ → List String → EvidenceItem
an_event id documents publishers = record {
  event_id = id;
  document_ids = documents;
  publishers = publishers;
  independent_source_count = 1;
}

-- The first two share a document, the last two a publisher.
abbrev three : List EvidenceItem
three =
    an_event 1 (10 ∷ 11 ∷ []) ("Reuters" ∷ [])
    ∷ an_event 2 (11 ∷ []) ("Nikkei" ∷ [])
    ∷ an_event 3 (12 ∷ []) ("Nikkei" ∷ [])
    ∷ []

abbrev gold : Clustering
gold = ("g1", "a" ∷ "b" ∷ []) ∷ ("g2", "c" ∷ []) ∷ []

-- All claims in one cluster but `b`, which is left out.
abbrev predicted : Clustering
predicted = ("p1", "a" ∷ "c" ∷ []) ∷ []

-- Events 1 and 2, and 2 and 3; and one that no item is about.
abbrev three_links : List Dependence
three_links =
    finding (an_event 1 [] []) (an_event 2 [] []) 10
    ∷ finding (an_event 2 [] []) (an_event 3 [] []) 6
    ∷ finding (an_event 3 [] []) (an_event 9 [] []) 10
    ∷ []

-- Events 1 and 3 stand in one group, through event 2.
effective_sources_iff_example :
    ((set : List ℕ) × In set (effective_sources three three_links).1 × In 1 set × In 3 set)
    ↔ Linked (used three three_links) 1 3
effective_sources_iff_example =
    effective_sources_iff three three_links 1 3 (inl refl) (inr (inr (inl refl)))

effective_sources-bounds_example :
    (1 ≤ (effective_sources three three_links).0) × ((effective_sources three three_links).0 ≤ 3)
unfolding count_of
effective_sources-bounds_example = effective_sources-bounds three three_links 2 (inr (inl refl))

abbrev report : String → String → String → SourceDocument
report id publisher text = record { document_id = id; publisher = some publisher; text = text }

-- Two reports of one publisher, and a copy by another.
abbrev reports : List SourceDocument
reports =
    report "d1" "Reuters" "ore output falls"
    ∷ report "d2" "Reuters" "mine reopens"
    ∷ report "d3" "Nikkei" "ore output falls"
    ∷ []
