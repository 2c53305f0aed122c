-- ===== src/Ingestion/Pipeline/Stored.antt =====
-- pipeline.py: what `ingest` stores of a new document, by what its parser finds.
use econiq_ai.Prelude.{
  ℕ, ◌≡◌, ◌≢◌, ◌⊎◌, ◌↔◌, refl, ap, ◌∙◌, inl, inr, true, Bool-cases, none, some, [], ◌∷◌, ◌++◌,
  length,
}
use mathlib.Core.List.{append-nil}
use econiq_ai.Prelude.Text.{Text, strip, is_empty}
use econiq_ai.Ontology.Edges.{document as document_node}
use econiq_ai.Ingestion.Documents.{
  ParsedDocument, is_empty_document, IngestionError, Parse, parsed, failed,
}
use econiq_ai.Ingestion.Parsers.{parse}
use econiq_ai.Ingestion.Records.{
  RawDocument, DocumentRow, DocumentIngested, extraction_parsed, extraction_failed, ingested,
  parse_failed, IngestionResult, IngestionPipeline, World, returned,
}
use econiq_ai.Ingestion.Pipeline.{
  columns_fit, hash_of, with_text, parse_result, status_of, row_of, event_of, ingest,
}
use econiq_ai.Ingestion.Pipeline.Settled.{
  IsReady, IsReliable, attempt, event_for, events_of, status_for, Settles,
}
use econiq_ai.Ingestion.Pipeline.Once.{ingest-Settles}
use econiq_ai.Ingestion.Pipeline.Again.{rows_with}

-- A text of white space alone counts as none.
abbrev pub IsReadable : Parse → ParsedDocument → Type 0
IsReadable outcome found = (outcome ≡ parsed found) × (strip found.text ≢ [])

abbrev pub IsUnreadable : Parse → Type 0
IsUnreadable outcome =
    ((error : IngestionError) × (outcome ≡ failed error))
    ⊎ ((found : ParsedDocument) × (outcome ≡ parsed found) × (strip found.text ≡ []))

is_empty_iff : (text : Text) → (is_empty text ≡ true) ↔ (text ≡ [])
unfolding is_empty
is_empty_iff [] = (λ e. refl, λ e. refl)
is_empty_iff (c ∷ text) = (λ e. cc, λ e. cc)

reading :
    (outcome : Parse)
    → ((found : ParsedDocument) × IsReadable outcome found
        × (with_text (parse_result outcome).0 ≡ some found))
      ⊎ (IsUnreadable outcome × (with_text (parse_result outcome).0 ≡ none))
unfolding with_text parse_result is_empty_document
reading (failed error) = inr (inl (error, refl), refl)
reading (parsed found) = elim (Bool-cases (is_empty (strip found.text))) [
  | inl e ↦ inr (inr (found, refl, (is_empty_iff (strip found.text)).0 e), rw e refl)
  | inr e ↦
      let full : strip found.text ≢ [] =
        λ nil. let t = (is_empty_iff (strip found.text)).1 nil in cc in
      inl (found, (refl, full), rw e refl)
]

module _ {Store : Type 0} (p : IngestionPipeline Store) (document : RawDocument) where
  abbrev pub outcome : Parse
  outcome = parse p.libraries p.parsers document.content document.content_type (some document.title)

  -- The row says what was acquired, under a new id and the hash of the bytes.
  pub record Records (id : ℕ) (row : DocumentRow) : Type 0 where
    pub document_id : row.document_id ≡ id
    pub content_hash : row.content_hash ≡ p.sha256 document.content
    pub source : row.source ≡ document.source
    pub url : row.url ≡ document.url
    pub publication_time : row.publication_time ≡ document.publication_time
    pub retrieved_at : row.retrieved_at ≡ document.retrieved_at

  abbrev pub Announces : DocumentRow → ParsedDocument → DocumentIngested → Type 0
  Announces row found event =
      (event.document_id ≡ row.document_id)
      × (event.content_hash ≡ row.content_hash)
      × (event.storage_uri ≡ row.storage_uri)
      × (event.section_count ≡ length found.sections)

  -- Marked parsed and announced, or marked failed and not announced.
  abbrev pub Reports : World Store → DocumentRow → IngestionResult → World Store → Type 0
  Reports w row result later =
      ((found : ParsedDocument) × IsReadable outcome found
        × (row.extraction_status ≡ extraction_parsed)
        × (result.status ≡ ingested)
        × ((event : DocumentIngested) × (later.published ≡ w.published ++ (event ∷ []))
            × Announces row found event))
      ⊎ (IsUnreadable outcome
          × (row.extraction_status ≡ extraction_failed)
          × (result.status ≡ parse_failed)
          × (later.published ≡ w.published))

  Settles-Reports :
      (w : World Store) (result : IngestionResult) (later : World Store)
      (settled : Settles p document w result later)
      → Reports w
          (row_of p
            (p.uuid4 w.drawn)
            document
            (attempt p document).0
            settled.uri
            (status_of (with_text (attempt p document).0)))
          result
          later
  unfolding row_of status_of event_of
  Settles-Reports w result later settled = elim (reading outcome) [
    | inl (found, readable, e) ↦
        let event = event_of p document found settled.uri (p.uuid4 w.drawn) in
        let emitted : result.event ≡ some event =
          settled.event ∙ ap (event_for p document settled.uri (p.uuid4 w.drawn)) e in
        inl (
          found,
          readable,
          ap status_of e,
          settled.status ∙ ap status_for e,
          (
            event,
            settled.published ∙ ap (λ o. w.published ++ events_of o) emitted,
            (refl, refl, refl, refl),
          ),
        )
    | inr (unreadable, e) ↦
        let silent : result.event ≡ none =
          settled.event ∙ ap (event_for p document settled.uri (p.uuid4 w.drawn)) e in
        inr (
          unreadable,
          ap status_of e,
          settled.status ∙ ap status_for e,
          settled.published ∙ ap (λ o. w.published ++ events_of o) silent ∙ append-nil w.published,
        )
  ]

  -- With a store that takes everything and tables as above, a document as above whose hash has no
  -- row is stored whatever its parser does: ingest returns the id of one new row and its node, and
  -- the row has the hash, the source, the address and the times of the document. If the parser
  -- finds a text that is not white space alone, the row is marked parsed, the status is ingested,
  -- and one event with the id, the hash and the address of the row and the number of sections is
  -- published; otherwise the row is marked failed, the status is parse_failed, and nothing is
  -- published.
  pub ingest_stored :
      (w : World Store)
      → IsReliable p
      → columns_fit p document ≡ true
      → IsReady p w
      → rows_with (hash_of p document) w ≡ 0
      → (result : IngestionResult) × (later : World Store) × (row : DocumentRow) × (ingest p
            document w
          ≡ returned result later)
        × (result.document_id ≡ some row.document_id)
        × (later.documents ≡ w.documents ++ (row ∷ []))
        × (later.nodes
            ≡ w.nodes ++ (record { node_id = row.document_id; node_type = document_node } ∷ []))
        × Records (p.uuid4 w.drawn) row
        × Reports w row result later
  unfolding row_of hash_of
  ingest_stored w reliable fit ready none_yet =
      let (result, later, e, settled) = ingest-Settles p document reliable w fit ready none_yet in
      (
        result,
        later,
        row_of p (p.uuid4 w.drawn) document (attempt p document).0 settled.uri
            (status_of (with_text (attempt p document).0)),
        e,
        settled.document_id,
        settled.documents,
        settled.nodes,
        record {
          document_id = refl;
          content_hash = refl;
          source = refl;
          url = refl;
          publication_time = refl;
          retrieved_at = refl;
        },
        Settles-Reports w result later settled,
      )
