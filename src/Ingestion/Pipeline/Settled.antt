-- ===== src/Ingestion/Pipeline/Settled.antt =====
-- pipeline.py: what `ingest` leaves behind where the object store takes what it is given.
use mathlib.Core.List.{append-nil}
use econiq_ai.Prelude.{
  ℕ, suc, ◌≤◌, ◌≡◌, ◌≢◌, ◌⊎◌, refl, sym, ap, ◌∙◌, inl, inr, Bool, true, false, Bool-cases, Option,
  none, some, List, [], ◌∷◌, ◌++◌, any, filter, count, arith, In, ok, ◌==◌, ==_iff, length,
}
use econiq_ai.Prelude.Text.{Text}
use econiq_ai.Prelude.Counting.{length-filter, count-pos}
use econiq_ai.Prelude.Membership.{any-In, In-filter}
use econiq_ai.Graph.Rows.{NodeRow}
use econiq_ai.Ontology.Edges.{document as document_node}
use econiq_ai.Ingestion.Documents.{ParsedDocument, IngestionError}
use econiq_ai.Ingestion.Parsers.{parse}
use econiq_ai.Ingestion.Storage.{StoredObject, stored}
use econiq_ai.Ingestion.Records.{
  RawDocument, DocumentRow, DocumentIngested, IngestionStatus, ingested, parse_failed,
  IngestionResult, IngestionPipeline, World, returned,
}
use econiq_ai.Ingestion.Pipeline.{
  columns_fit, has_hash, one_or_none, find_by_hash, with_text, status_of, parse_result, hash_of,
  row_of, event_of, persist, announce, store_text, settle,
}

-- Hashes and keys are unique, and ids that were not drawn yet name no node.
pub record IsReady {Store : Type 0} (p : IngestionPipeline Store) (w : World Store) : Type 0 where
  pub unique : (content_hash : Text) → count (has_hash content_hash) w.documents ≤ 1
  pub fresh : (k : ℕ) → w.drawn ≤ k → (node : NodeRow) → In node w.nodes → node.node_id ≢ p.uuid4 k

module _ (content_hash : Text) where
  one_or_none_cases :
      (rows : List DocumentRow)
      → length rows ≤ 1
      → ((rows ≡ []) × (one_or_none rows ≡ ok none))
        ⊎ ((row : DocumentRow) × In row rows × (one_or_none rows ≡ ok (some row.document_id)))
  unfolding one_or_none
  one_or_none_cases [] le = inl (refl, refl)
  one_or_none_cases (row ∷ []) le = inr (row, inl refl, refl)
  one_or_none_cases (row ∷ other ∷ rows) le = absurd (omega arith)

  -- The row with the hash, where there is one.
  pub find_by_hash_cases :
      (rows : List DocumentRow)
      → count (has_hash content_hash) rows ≤ 1
      → ((count (has_hash content_hash) rows ≡ 0) × (find_by_hash content_hash rows ≡ ok none))
        ⊎ ((row : DocumentRow) × In row rows
            × (has_hash content_hash row ≡ true)
            × (find_by_hash content_hash rows ≡ ok (some row.document_id)))
  unfolding find_by_hash
  find_by_hash_cases rows le =
      let as_many = length-filter (has_hash content_hash) rows in
      elim (one_or_none_cases (filter (has_hash content_hash) rows) (omega arith)) [
        | inl (nil, e) ↦
            let empty : length (filter (has_hash content_hash) rows) ≡ 0 = ap length nil in
            inl (omega arith, e)
        | inr (row, m, e) ↦
            let (i, t) = In-filter row (has_hash content_hash) rows m in inr (row, i, t, e)
      ]

  not_any :
      (rows : List DocumentRow)
      → count (has_hash content_hash) rows ≡ 0
      → any (has_hash content_hash) rows ≡ false
  not_any rows e = elim (Bool-cases (any (has_hash content_hash) rows)) [
    | inl t ↦
        let (row, m, h) = any-In (has_hash content_hash) rows t in
        let one = count-pos (has_hash content_hash) row rows m h in absurd (omega arith)
    | inr f ↦ f
  ]

-- A store that takes everything.
abbrev pub IsReliable : {Store : Type 0} → IngestionPipeline Store → Type 0
IsReliable {Store} p =
    (key : Text) (content : List ℕ) (content_type : Text) (store : Store)
    → (object : StoredObject) × (later : Store) × (p.object_store.put key content content_type store
        ≡ stored object later)

abbrev pub status_for : Option ParsedDocument → IngestionStatus
status_for none = parse_failed
status_for (some found) = ingested

abbrev pub events_of : Option DocumentIngested → List DocumentIngested
events_of none = []
events_of (some event) = event ∷ []

module _ {Store : Type 0} (p : IngestionPipeline Store) (document : RawDocument) where
  -- what the parsers find
  abbrev pub attempt : Option ParsedDocument × Option IngestionError
  attempt =
      parse_result
        (parse p.libraries p.parsers document.content document.content_type (some document.title))

  abbrev pub event_for : Text → ℕ → Option ParsedDocument → Option DocumentIngested
  event_for uri id none = none
  event_for uri id (some found) = some (event_of p document found uri id)

  -- One new row and its node, and one event more where text was found.
  pub record Settles (w : World Store) (result : IngestionResult) (later : World Store)
      : Type 0 where
    pub uri : Text
    pub documents :
        later.documents
        ≡ w.documents
          ++ (row_of p (p.uuid4 w.drawn) document attempt.0 uri (status_of (with_text attempt.0))
              ∷ [])
    pub nodes :
        later.nodes
        ≡ w.nodes ++ (record { node_id = p.uuid4 w.drawn; node_type = document_node } ∷ [])
    pub drawn : later.drawn ≡ suc w.drawn
    pub document_id : result.document_id ≡ some (p.uuid4 w.drawn)
    pub status : result.status ≡ status_for (with_text attempt.0)
    pub published : later.published ≡ w.published ++ events_of result.event
    pub event : result.event ≡ event_for uri (p.uuid4 w.drawn) (with_text attempt.0)

  persist_ready :
      (uri : Text) (w : World Store)
      → columns_fit p document ≡ true
      → IsReady p w
      → count (has_hash (hash_of p document)) w.documents ≡ 0
      → persist p document attempt.0 uri (status_of (with_text attempt.0)) w
        ≡ returned (p.uuid4 w.drawn) (record w {
          documents =
              w.documents
              ++ (row_of p
                    (p.uuid4 w.drawn)
                    document
                    attempt.0
                    uri
                    (status_of (with_text attempt.0))
                  ∷ []);
          nodes = w.nodes ++ (record { node_id = p.uuid4 w.drawn; node_type = document_node } ∷ []);
          drawn = suc w.drawn;
        })
  unfolding persist row_of
  persist_ready uri w fit ready none_yet =
      let same : NodeRow → Bool = λ node. node.node_id == p.uuid4 w.drawn in
      let free : any same w.nodes ≡ false = elim (Bool-cases (any same w.nodes)) [
        | inl t ↦
            let (node, m, e) = any-In same w.nodes t in
            absurd (
              ready.fresh w.drawn (omega arith) node m
                ((==_iff node.node_id (p.uuid4 w.drawn)).0 e))
        | inr f ↦ f
      ] in
      let single = not_any (hash_of p document) w.documents none_yet in rw (free, single, fit) refl

  -- The text is what was put into the store last.
  abbrev pub Keeps : World Store → Type 0
  Keeps later =
      (found : ParsedDocument)
      → with_text attempt.0 ≡ some found
      → (before : Store) × (object : StoredObject) × (store_text p document found before
          ≡ stored object later.store)

  announce_returned :
      (usable : Option ParsedDocument) (error : Option IngestionError) (uri : Text) (id : ℕ)
      (w : World Store)
      → (result : IngestionResult) × (later : World Store) × (announce p document usable error uri
            (returned id w)
          ≡ returned result later)
        × (later ≡ record w { published = w.published ++ events_of result.event })
        × (result.document_id ≡ some id)
        × (result.status ≡ status_for usable)
        × (result.event ≡ event_for uri id usable)
  unfolding announce
  announce_returned none error uri id w = (
    _,
    _,
    refl,
    ap (λ l. record w { published = l }) (sym (append-nil w.published)),
    refl,
    refl,
    refl,
  )
  announce_returned (some found) error uri id w = (_, _, refl, refl, refl, refl, refl)

  pub settle_ready :
      (uri : Text) (w : World Store)
      → columns_fit p document ≡ true
      → IsReady p w
      → count (has_hash (hash_of p document)) w.documents ≡ 0
      → (result : IngestionResult) × (later : World Store) × (settle p document attempt uri w
          ≡ returned result later)
        × Settles w result later
        × (later.store ≡ w.store)
  unfolding settle
  settle_ready uri w fit ready none_yet =
      let persisted = persist_ready uri w fit ready none_yet in
      let (result, later, e, world, id, status, event) =
        announce_returned (with_text attempt.0) attempt.1 uri (p.uuid4 w.drawn) _ in
      (
        result,
        later,
        ap (announce p document (with_text attempt.0) attempt.1 uri) persisted ∙ e,
        record {
          uri = uri;
          documents = ap (λ (x : World Store). x.documents) world;
          nodes = ap (λ (x : World Store). x.nodes) world;
          drawn = ap (λ (x : World Store). x.drawn) world;
          document_id = id;
          status = status;
          published = ap (λ (x : World Store). x.published) world;
          event = event;
        },
        ap (λ (x : World Store). x.store) world,
      )
