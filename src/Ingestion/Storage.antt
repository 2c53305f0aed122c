-- ===== src/Ingestion/Storage.antt =====
-- storage.py: the keys of stored objects, the protocol `ObjectStore` and the store in memory.
use econiq_ai.Prelude.{
  ℕ, Option, none, some, List, [], ◌∷◌, ◌++◌, take, drop, length, if◌then◌else◌,
}
use econiq_ai.Prelude.Text.{Text, codes, text_eq}

pub data Artifact : Type 0 where
  raw normalized derived : Artifact

abbrev pub artifact_name : Artifact → Text
artifact_name raw = codes "raw"
artifact_name normalized = codes "normalized"
artifact_name derived = codes "derived"

pub record StoredObject : Type 0 where
  pub uri : Text
  pub bucket : Text
  pub key : Text
  pub size_bytes : ℕ

abbrev pub slash : ℕ
slash = 47

unfoldable pub object_key : Artifact → Text → Text → Text
object_key artifact content_hash extension =
    artifact_name artifact
    ++ (slash
        ∷ (take 2 content_hash
            ++ (slash ∷ (take 2 (drop 2 content_hash) ++ (slash ∷ (content_hash ++ extension))))))

-- What `put` comes to: the object and the store after it, a `StorageError`, or what the client of
-- the store raises.
pub data Put (Store : Type 0) : Type 0 where
  stored : StoredObject → Store → Put Store
  refused : Put Store
  broken : Put Store

-- `ObjectStore`; a `get` that is `none` raises `StorageError`.
pub record ObjectStore (Store : Type 0) : Type 0 where
  pub put : Text → List ℕ → Text → Store → Put Store
  pub get : Text → Store → Option (List ℕ)

-- `InMemoryObjectStore`
pub record MemoryStore : Type 0 where
  pub bucket : Text
  pub objects : List (Text × List ℕ)
  pub content_types : List (Text × Text)

-- A key of a dictionary keeps its place when its value is replaced.
unfoldable pub set_item : {A : Type 0} → Text → A → List (Text × A) → List (Text × A)
set_item key value [] = (key, value) ∷ []
set_item key value ((k, v) ∷ items) =
    if text_eq k key then (k, value) ∷ items else (k, v) ∷ set_item key value items

unfoldable pub item_at : {A : Type 0} → Text → List (Text × A) → Option A
item_at key [] = none
item_at key ((k, v) ∷ items) = if text_eq k key then some v else item_at key items

unfoldable pub memory_put : Text → List ℕ → Text → MemoryStore → Put MemoryStore
unfolding set_item
memory_put key content content_type store =
    stored
      (record {
        uri = codes "s3://" ++ (store.bucket ++ (slash ∷ key));
        bucket = store.bucket;
        key = key;
        size_bytes = length content;
      })
      (record {
        bucket = store.bucket;
        objects = set_item key content store.objects;
        content_types = set_item key content_type store.content_types;
      })

unfoldable pub memory_get : Text → MemoryStore → Option (List ℕ)
unfolding item_at
memory_get key store = item_at key store.objects

unfoldable pub memory_store : ObjectStore MemoryStore
unfolding memory_put memory_get
memory_store = record { put = memory_put; get = memory_get }
