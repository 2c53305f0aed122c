-- ===== src/Ingestion/Pipeline/Once.antt =====
-- pipeline.py: each content becomes one document, and a document that is ingested again stays as it is.
use econiq_ai.Prelude.{
  true, ◌≡◌, sym, ap, ◌∙◌, subst, inl, inr, none, some, Option-cases, count, arith, ok,
}
use econiq_ai.Prelude.Text.{Text}
use econiq_ai.Prelude.Counting.{count-pos}
use econiq_ai.Ingestion.Documents.{ParsedDocument}
use econiq_ai.Ingestion.Storage.{StoredObject, stored}
use econiq_ai.Ingestion.Records.{
  RawDocument, IngestionResult, IngestionPipeline, World, Ingest, returned,
}
use econiq_ai.Ingestion.Pipeline.{
  columns_fit, has_hash, find_by_hash, with_text, hash_of, store_text, settle, after_text,
  keep_found, keep_text, after_raw, store_raw, after_lookup, ingest,
}
use econiq_ai.Ingestion.Pipeline.Settled.{
  IsReady, find_by_hash_cases, IsReliable, attempt, Settles, Keeps, settle_ready,
}

module _ {Store : Type 0} (p : IngestionPipeline Store) (document : RawDocument) where
  -- What the store holds makes no difference to the rows.
  moved :
      (w : World Store) (store : Store) (result : IngestionResult) (later : World Store)
      → Settles p document (record w { store = store }) result later
      → Settles p document w result later
  moved w store result later s = record {
    uri = s.uri;
    documents = s.documents;
    nodes = s.nodes;
    drawn = s.drawn;
    document_id = s.document_id;
    status = s.status;
    published = s.published;
    event = s.event;
  }

  keep_no_text :
      (uri : Text) (w : World Store)
      → with_text (attempt p document).0 ≡ none
      → keep_text p document (attempt p document) uri w
        ≡ settle p document (attempt p document) uri w
  unfolding keep_text keep_found
  keep_no_text uri w e = ap (keep_found p document (attempt p document) uri w) e

  keep_some_text :
      (uri : Text) (w : World Store) (found : ParsedDocument) (object : StoredObject)
      (store : Store)
      → with_text (attempt p document).0 ≡ some found
      → store_text p document found w.store ≡ stored object store
      → keep_text p document (attempt p document) uri w
        ≡ settle p document (attempt p document) uri (record w { store = store })
  unfolding keep_text keep_found after_text
  keep_some_text uri w found object store e put =
      ap (keep_found p document (attempt p document) uri w) e
      ∙ ap (after_text p document (attempt p document) uri w) put

  abbrev Ingested : World Store → Ingest IngestionResult Store → Type 0
  Ingested w outcome =
      (result : IngestionResult) × (later : World Store) × (outcome ≡ returned result later)
      × Settles p document w result later
      × Keeps p document later

  module _ (reliable : IsReliable p) (w : World Store) (fit : columns_fit p document ≡ true)
      (ready : IsReady p w) (none_yet : count (has_hash (hash_of p document)) w.documents ≡ 0) where
    settled_with :
        (store : Store) (uri : Text)
        → Keeps p document (record w { store = store })
        → Ingested w (settle p document (attempt p document) uri (record w { store = store }))
    settled_with store uri keeps =
        let held : IsReady p (record w { store = store }) = record {
          unique = ready.unique;
          fresh = ready.fresh;
        } in
        let (result, later, e, settles, same) =
          settle_ready p document uri (record w { store = store }) fit held none_yet in
        (
          result,
          later,
          e,
          moved w store result later settles,
          λ found f.
              let (before, object, put) = keeps found f in
              (
                before,
                object,
                subst (λ s. store_text p document found before ≡ stored object s) (sym same) put,
              ),
        )

    text_kept :
        (store : Store) (uri : Text)
        → Ingested w (keep_text p document (attempt p document) uri (record w { store = store }))
    unfolding store_text
    text_kept store uri = elim (Option-cases (with_text (attempt p document).0)) [
      | inl e ↦
          subst (Ingested w) (sym (keep_no_text uri (record w { store = store }) e))
            (settled_with store uri (λ found f. absurd (cc)))
      | inr (found, e) ↦
          let (object, later, put) = reliable _ _ _ store in
          let put_text : store_text p document found store ≡ stored object later = put in
          subst (Ingested w)
            (sym (keep_some_text uri (record w { store = store }) found object later e put_text))
            (settled_with later uri (λ other f.
              let same : found ≡ other = cc in
              (
                store,
                object,
                subst (λ d. store_text p document d store ≡ stored object later) same put_text,
              )))
    ]

    new_lookup : find_by_hash (hash_of p document) w.documents ≡ ok none
    new_lookup =
        elim (find_by_hash_cases (hash_of p document) w.documents
          (ready.unique (hash_of p document))) [
            | inl (n, e) ↦ e
            | inr (row, m, h, e) ↦
                let one = count-pos (has_hash (hash_of p document)) row w.documents m h in
                absurd (omega arith)
          ]

    after_raw-stored :
        (object : StoredObject) (store : Store)
        → Ingested w (after_raw p document w (stored object store))
    unfolding after_raw
    after_raw-stored object store = text_kept store object.uri

    pub ingest_kept : Ingested w (ingest p document w)
    unfolding ingest after_lookup store_raw
    ingest_kept =
        let (object, store, put) = reliable _ _ _ w.store in
        let put_raw : store_raw p document w.store ≡ stored object store = put in
        let found : ingest p document w ≡ after_raw p document w (stored object store) =
          ap (after_lookup p document w) new_lookup ∙ ap (after_raw p document w) put_raw in
        subst (Ingested w) (sym found) (after_raw-stored object store)

    pub ingest-Settles :
        (result : IngestionResult) × (later : World Store) × (ingest p document w
          ≡ returned result later)
        × Settles p document w result later
    ingest-Settles =
        let (result, later, e, settles, keeps) = ingest_kept in (result, later, e, settles)
