-- ===== src/Ingestion/Pipeline/Again.antt =====
-- pipeline.py: one document for each content, over one and over many ingests.
use econiq_ai.Prelude.{
  ℕ, ◌+◌, ◌≤◌, ◌≡◌, ◌⊎◌, refl, sym, ap, ◌∙◌, subst, inl, inr, Bool, true, not, Bool-cases, Option,
  none, some, [], ◌∷◌, count, arith, In, ok, length, length-append, ◌==◌,
}
use econiq_ai.Prelude.Text.{Text, text_eq}
use econiq_ai.Prelude.Strips.{text_eq_refl, text_eq_sound}
use econiq_ai.Prelude.Counting.{count-append, count-pos}
use econiq_ai.Prelude.Membership.{In-append}
use econiq_ai.Graph.Rows.{NodeRow}
use econiq_ai.Ontology.Edges.{document as document_node}
use econiq_ai.Ingestion.Documents.{ParsedDocument}
use econiq_ai.Ingestion.Records.{
  RawDocument, DocumentRow, duplicate, IngestionResult, IngestionPipeline, World, returned,
}
use econiq_ai.Ingestion.Pipeline.{
  columns_fit, has_hash, find_by_hash, with_text, status_of, hash_of, row_of, duplicate_of,
  after_lookup, ingest,
}
use econiq_ai.Ingestion.Pipeline.Sources.{has_status, status_index}
use econiq_ai.Ingestion.Pipeline.Settled.{
  IsReady, find_by_hash_cases, IsReliable, attempt, status_for, Settles,
}
use econiq_ai.Ingestion.Pipeline.Once.{ingest-Settles}

-- Ids are drawn once.
abbrev pub IsInjective : {Store : Type 0} → IngestionPipeline Store → Type 0
IsInjective p = (j k : ℕ) → p.uuid4 j ≡ p.uuid4 k → j ≡ k

abbrev pub rows_with : {Store : Type 0} → Text → World Store → ℕ
rows_with content_hash w = count (has_hash content_hash) w.documents

module _ {Store : Type 0} (p : IngestionPipeline Store) (document : RawDocument) (w : World Store)
    (ready : IsReady p w) where
  module _ (none_yet : rows_with (hash_of p document) w ≡ 0) (result : IngestionResult)
      (later : World Store) (settled : Settles p document w result later) where
    abbrev new_row : DocumentRow
    new_row =
        row_of p (p.uuid4 w.drawn) document (attempt p document).0 settled.uri
          (status_of (with_text (attempt p document).0))

    rows_later :
        (content_hash : Text)
        → rows_with content_hash later
          ≡ rows_with content_hash w + count (has_hash content_hash) (new_row ∷ [])
    rows_later content_hash =
        ap (count (has_hash content_hash)) settled.documents
        ∙ count-append (has_hash content_hash) w.documents (new_row ∷ [])

    settled_counts :
        (content_hash : Text)
        → (rows_with content_hash later ≡ rows_with content_hash w)
          ⊎ ((hash_of p document ≡ content_hash) × (rows_with content_hash later ≡ 1))
    unfolding row_of
    settled_counts content_hash =
        let split = rows_later content_hash in
        elim (Bool-cases (text_eq (hash_of p document) content_hash)) [
          | inl t ↦
              let same = text_eq_sound (hash_of p document) content_hash t in
              let zero_rows : rows_with content_hash w ≡ 0 =
                subst (λ h. rows_with h w ≡ 0) same none_yet in
              let one_row : count (has_hash content_hash) (new_row ∷ []) ≡ 1 = rw t refl in
              inr (same, omega arith)
          | inr f ↦
              let no_row : count (has_hash content_hash) (new_row ∷ []) ≡ 0 = rw f refl in
              inl (omega arith)
        ]

    settled-IsReady : IsInjective p → IsReady p later
    settled-IsReady injective = record {
      unique = λ content_hash.
          let le = ready.unique content_hash in
          elim (settled_counts content_hash) [ inl e ↦ omega arith | inr (s, e) ↦ omega arith ];
      fresh = λ k le node m same.
          let drawn = settled.drawn in
          elim (In-append node w.nodes
            (record { node_id = p.uuid4 w.drawn; node_type = document_node } ∷ [])
            (subst (λ l. In node l) settled.nodes m)) [
              | inl i ↦ ready.fresh k (omega arith) node i same
              | inr (inl e) ↦
                  let next_id =
                    injective w.drawn k (sym (ap (λ (n : NodeRow). n.node_id) e) ∙ same) in
                  omega arith
              | inr (inr n) ↦ n
            ];
    }

    new_row-counted : rows_with (hash_of p document) later ≡ 1
    unfolding row_of
    new_row-counted =
        let split = rows_later (hash_of p document) in
        let one_row : count (has_hash (hash_of p document)) (new_row ∷ []) ≡ 1 =
          rw (text_eq_refl (hash_of p document)) refl in
        omega arith

    -- The row with the hash is the new one.
    settled_lookup :
        IsInjective p
        → find_by_hash (hash_of p document) later.documents ≡ ok (some (p.uuid4 w.drawn))
    unfolding row_of
    settled_lookup injective =
        let known = (settled-IsReady injective).unique (hash_of p document) in
        elim (find_by_hash_cases (hash_of p document) later.documents known) [
          | inl (n, e) ↦ absurd (omega (arith, new_row-counted))
          | inr (row, m, h, e) ↦
              elim (In-append row w.documents (new_row ∷ [])
                (subst (λ l. In row l) settled.documents m)) [
                  | inl i ↦
                      let one = count-pos (has_hash (hash_of p document)) row w.documents i h in
                      absurd (omega arith)
                  | inr (inl same) ↦ e ∙ ap (λ (r : DocumentRow). ok (some r.document_id)) same
                  | inr (inr n) ↦ elim n [ ]
                ]
        ]

  -- A content that has a row.
  abbrev pub IsKnown : Type 0
  IsKnown =
      (row : DocumentRow) × In row w.documents
      × (has_hash (hash_of p document) row ≡ true)
      × (find_by_hash (hash_of p document) w.documents ≡ ok (some row.document_id))

  known_or_new : IsKnown ⊎ (rows_with (hash_of p document) w ≡ 0)
  known_or_new =
      elim (find_by_hash_cases (hash_of p document) w.documents
        (ready.unique (hash_of p document))) [ inl (n, e) ↦ inr n | inr known ↦ inl known ]

ingest_known :
    {Store : Type 0} (p : IngestionPipeline Store) (document again : RawDocument) (w : World Store)
    (id : ℕ)
    → hash_of p again ≡ hash_of p document
    → find_by_hash (hash_of p document) w.documents ≡ ok (some id)
    → ingest p again w ≡ returned (duplicate_of p (hash_of p again) id) w
unfolding ingest after_lookup
ingest_known p document again w id same found =
    ap (after_lookup p again w) (ap (λ h. find_by_hash h w.documents) same ∙ found)

abbrev pub is_new : IngestionResult → Bool
is_new result = not (has_status duplicate result)

counted_new :
    (result : IngestionResult) (usable : Option ParsedDocument)
    → result.status ≡ status_for usable
    → count is_new (result ∷ []) ≡ 1
counted_new result none e = rw (ap (λ s. not (status_index s == 1)) e) refl
counted_new result (some found) e = rw (ap (λ s. not (status_index s == 1)) e) refl

module _ {Store : Type 0} (p : IngestionPipeline Store) (reliable : IsReliable p)
    (injective : IsInjective p) where
  -- Under the same conditions on the first document, ingest returns a result with an id and leaves
  -- tables that keep the conditions, and to ingest a document of the same hash after it reports a
  -- duplicate with this id and changes nothing.
  pub ingest_idempotent :
      (document again : RawDocument) (w : World Store)
      → columns_fit p document ≡ true
      → IsReady p w
      → hash_of p again ≡ hash_of p document
      → (result : IngestionResult) × (later : World Store) × (id : ℕ) × (ingest p document w
          ≡ returned result later)
        × (result.document_id ≡ some id)
        × IsReady p later
        × (ingest p again later ≡ returned (duplicate_of p (hash_of p again) id) later)
  ingest_idempotent document again w fit ready same = elim (known_or_new p document w ready) [
    | inl (row, m, h, e) ↦ (
      duplicate_of p (hash_of p document) row.document_id,
      w,
      row.document_id,
      ingest_known p document document w row.document_id refl e,
      refl,
      ready,
      ingest_known p document again w row.document_id same e,
    )
    | inr none_yet ↦
        let (result, later, e, settled) = ingest-Settles p document reliable w fit ready none_yet in
        let found = settled_lookup p document w ready none_yet result later settled injective in
        (
          result,
          later,
          p.uuid4 w.drawn,
          e,
          settled.document_id,
          settled-IsReady p document w ready none_yet result later settled injective,
          ingest_known p document again later (p.uuid4 w.drawn) same found,
        )
  ]

  -- One document of a run.
  pub ingest_once :
      (document : RawDocument) (w : World Store)
      → columns_fit p document ≡ true
      → IsReady p w
      → (result : IngestionResult) × (later : World Store) × (ingest p document w
          ≡ returned result later)
        × IsReady p later
        × (1 ≤ rows_with (hash_of p document) later)
        × ((content_hash : Text) → rows_with content_hash w ≤ rows_with content_hash later)
        × (length later.documents ≡ length w.documents + count is_new (result ∷ []))
  ingest_once document w fit ready = elim (known_or_new p document w ready) [
    | inl (row, m, h, e) ↦ (
      duplicate_of p (hash_of p document) row.document_id,
      w,
      ingest_known p document document w row.document_id refl e,
      ready,
      count-pos (has_hash (hash_of p document)) row w.documents m h,
      λ content_hash. omega arith,
      omega arith,
    )
    | inr none_yet ↦
        let (result, later, e, settled) = ingest-Settles p document reliable w fit ready none_yet in
        let one = new_row-counted p document w ready none_yet result later settled in
        (
          result,
          later,
          e,
          settled-IsReady p document w ready none_yet result later settled injective,
          omega arith,
          λ content_hash.
              elim (settled_counts p document w ready none_yet result later settled content_hash) [
                | inl same ↦ omega arith
                | inr (same, k) ↦ let le = ready.unique content_hash in omega arith
              ],
          ap length settled.documents
              ∙ length-append w.documents _
              ∙ ap (λ n. length w.documents + n)
                  (sym (counted_new result (with_text (attempt p document).0) settled.status)),
        )
  ]
