-- ===== src/Ingestion/Pipeline/Retrieval.antt =====
-- pipeline.py and storage.py: the text of an ingested document is read back.
use econiq_ai.Prelude.{true, ℕ, ◌≡◌, refl, sym, ap, ◌∙◌, inl, inr, Bool-cases, some, List, [], ◌∷◌}
use econiq_ai.Prelude.Text.{Text, codes, text_eq}
use econiq_ai.Prelude.Strips.{text_eq_refl}
use econiq_ai.Ingestion.Documents.{ParsedDocument}
use econiq_ai.Ingestion.Storage.{
  normalized, object_key, StoredObject, Put, stored, refused, broken, ObjectStore, set_item,
  item_at, MemoryStore, memory_put, memory_get, memory_store,
}
use econiq_ai.Ingestion.Records.{
  RawDocument, ingested, IngestionResult, IngestionPipeline, World, returned,
}
use econiq_ai.Ingestion.Pipeline.{
  columns_fit, with_text, hash_of, store_text, ingest, load_normalized_text,
}
use econiq_ai.Ingestion.Pipeline.Settled.{IsReady, IsReliable, attempt, status_for}
use econiq_ai.Ingestion.Pipeline.Once.{ingest_kept}
use econiq_ai.Ingestion.Pipeline.Again.{rows_with}

-- What a store takes can be read from it.
abbrev pub ReadsBack : {Store : Type 0} → ObjectStore Store → Type 0
ReadsBack {Store} store =
    (key : Text) (content : List ℕ) (content_type : Text) (before later : Store)
    (object : StoredObject)
    → store.put key content content_type before ≡ stored object later
    → store.get key later ≡ some content

item_at-set_item :
    {A : Type 0} (key : Text) (value : A) (items : List (Text × A))
    → item_at key (set_item key value items) ≡ some value
unfolding item_at set_item
item_at-set_item key value [] = rw (text_eq_refl key) refl
item_at-set_item key value ((k, v) ∷ items) = elim (Bool-cases (text_eq k key)) [
  | inl t ↦ rw t (rw (t, item_at) refl)
  | inr f ↦ rw f (rw (f, item_at) (item_at-set_item key value items))
]

-- The store in memory takes everything and gives it back.
pub memory_store-ReadsBack : ReadsBack memory_store
unfolding memory_store memory_put memory_get
memory_store-ReadsBack key content content_type before later object e =
    let same : later.objects ≡ set_item key content before.objects =
      ap (λ (t : Put MemoryStore). elim t [ stored o s ↦ s.objects | refused ↦ [] | broken ↦ [] ])
        (sym e) in
    ap (item_at key) same ∙ item_at-set_item key content before.objects

module _ {Store : Type 0} (p : IngestionPipeline Store) (reliable : IsReliable p)
    (reads_back : ReadsBack p.object_store)
    (codec : (text : Text) → p.decode (p.encode text) ≡ text) where
  loaded :
      (content_hash : Text) (store : Store) (content : List ℕ)
      → p.object_store.get (object_key normalized content_hash (codes ".txt")) store ≡ some content
      → load_normalized_text p content_hash store ≡ some (p.decode content)
  unfolding load_normalized_text
  loaded content_hash store content e = rw (e, load_normalized_text) refl

  -- With a store that takes everything and gives it back, a codec that decodes what it encodes,
  -- and tables and a document as above: where the parser finds text in a document whose hash has
  -- no row, ingest returns the status ingested, and load_normalized_text then returns this text.
  pub load_normalized_text-ingest :
      (document : RawDocument) (found : ParsedDocument) (w : World Store)
      → columns_fit p document ≡ true
      → IsReady p w
      → rows_with (hash_of p document) w ≡ 0
      → with_text (attempt p document).0 ≡ some found
      → (result : IngestionResult) × (later : World Store) × (ingest p document w
          ≡ returned result later)
        × (result.status ≡ ingested)
        × (load_normalized_text p (hash_of p document) later.store ≡ some found.text)
  unfolding store_text
  load_normalized_text-ingest document found w fit ready none_yet e =
      let (result, later, f, settled, keeps) =
        ingest_kept p document reliable w fit ready none_yet in
      let (before, object, put) = keeps found e in
      let held = reads_back _ _ _ before later.store object put in
      (
        result,
        later,
        f,
        settled.status ∙ ap status_for e,
        loaded (hash_of p document) later.store (p.encode found.text) held
            ∙ ap (λ t. some t) (codec found.text),
      )
