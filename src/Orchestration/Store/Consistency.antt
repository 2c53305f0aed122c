-- ===== src/Orchestration/Store/Consistency.antt =====
-- The constraints of the `work_items` table as a predicate, and the updates that keep it.
use econiq_ai.Prelude.{
  ℕ, ◌≤◌, ◌≡◌, ap, refl, Bool, true, any, Option, none, some, [], ◌∷◌, ◌++◌, inl, inr, List, String,
  ok, leb, leb→le, le→leb, Bool-cases, all, count, update_where, In, str_eq_iff, ==_iff, arith,
}
use econiq_ai.Prelude.Membership.{all_intro, all-In, In-update_where}
use econiq_ai.Prelude.Counting.{In-count, count-update-le}
use econiq_ai.Orchestration.Store.{
  WorkItem, Db, is_open, holds_key, has_id, row_allowed, event_allowed, row_fits, fits_option,
  has_event_id, is_known, OutboxEvent, allowed, commit,
}

-- Ids are distinct, a key has one open item at most, and every row fits its columns.
pub record IsConsistent (db : Db) : Type 0 where
  pub ids : (i : ℕ) → count (has_id i) db.items ≤ 1
  pub open_keys : (k : String) → count (holds_key k) db.items ≤ 1
  pub rows : all (row_fits db.events) db.items ≡ true
  pub event_ids : (i : ℕ) → count (has_event_id i) db.events ≤ 1

pub allowed_of_IsConsistent : (db : Db) → IsConsistent db → allowed db ≡ true
unfolding allowed row_allowed event_allowed
allowed_of_IsConsistent db h = ground (
  arith,
  all_intro (row_allowed db.events db.items) db.items λ x m. ground (
    arith,
    le→leb _ _ (h.ids x.work_item_id),
    le→leb _ _ (h.open_keys x.idempotency_key),
    all-In x (row_fits db.events) db.items h.rows m,
  ),
  all_intro (event_allowed db.events) db.events λ e m. le→leb _ _ (h.event_ids e.outbox_event_id),
)

module _ (db : Db) (accepted : allowed db ≡ true) where
  row : (x : WorkItem) → In x db.items → row_allowed db.events db.items x ≡ true
  unfolding allowed
  row x m = all-In x (row_allowed db.events db.items) db.items (ground arith) m

  event : (e : OutboxEvent) → In e db.events → event_allowed db.events e ≡ true
  unfolding allowed
  event e m = all-In e (event_allowed db.events) db.events (ground arith) m

  one_id : (i : ℕ) → count (has_id i) db.items ≤ 1
  unfolding row_allowed
  one_id i = elim (Bool-cases (leb (count (has_id i) db.items) 1)) [
    | inl e ↦ leb→le _ _ e
    | inr e ↦
        let (x, m, t) = In-count (has_id i) db.items (ground arith) in
        let same : x.work_item_id ≡ i = (==_iff _ _).0 t in
        absurd (ground (arith, row x m, ap (λ j. leb (count (has_id j) db.items) 1) same))
  ]

  one_open : (k : String) → count (holds_key k) db.items ≤ 1
  unfolding row_allowed
  one_open k = elim (Bool-cases (leb (count (holds_key k) db.items) 1)) [
    | inl e ↦ leb→le _ _ e
    | inr e ↦
        let (x, m, t) = In-count (holds_key k) db.items (ground arith) in
        let same : x.idempotency_key ≡ k = (str_eq_iff _ _).0 (ground arith) in
        absurd (ground (arith, t, row x m, ap (λ j. leb (count (holds_key j) db.items) 1) same))
  ]

  one_event : (i : ℕ) → count (has_event_id i) db.events ≤ 1
  unfolding event_allowed
  one_event i = elim (Bool-cases (leb (count (has_event_id i) db.events) 1)) [
    | inl e ↦ leb→le _ _ e
    | inr e ↦
        let (x, m, t) = In-count (has_event_id i) db.events (ground arith) in
        let same : x.outbox_event_id ≡ i = (==_iff _ _).0 t in
        absurd (ground (arith, event x m, ap (λ j. leb (count (has_event_id j) db.events) 1) same))
  ]

  pub IsConsistent-allowed : IsConsistent db
  unfolding row_allowed
  IsConsistent-allowed = record {
    ids = one_id;
    open_keys = one_open;
    rows = all_intro (row_fits db.events) db.items (λ x m. ground (arith, row x m));
    event_ids = one_event;
  }

pub commit_of_IsConsistent :
    {A : Type 0} (a : A) (db : Db) → IsConsistent db → commit a db ≡ ok (a, db)
unfolding commit
commit_of_IsConsistent a db h = rw (allowed_of_IsConsistent db h)

-- A commit that goes through stores what it was given, and that is consistent.
pub commit-eq-ok :
    {A : Type 0} (a : A) (db : Db) {r : A × Db}
    → commit a db ≡ ok r
    → (r ≡ (a, db)) × IsConsistent db
unfolding commit
commit-eq-ok a db h = elim (Bool-cases (allowed db)) [
  | inl e ↦ (ground arith, IsConsistent-allowed db e)
  | inr e ↦ absurd (ground arith)
]

-- What one row's fit says, in parts.
abbrev pub FitsLike : WorkItem → WorkItem → Type 0
FitsLike y x =
    (y.stage ≡ x.stage)
    × (y.max_attempts ≡ x.max_attempts)
    × (y.trigger ≡ x.trigger)
    × (y.source_event_id ≡ x.source_event_id)

-- A row whose texts stay, but for the worker, fits where the worker does.
pub row_fits_like :
    (events : List OutboxEvent) (x y : WorkItem)
    → y.idempotency_key ≡ x.idempotency_key
    → FitsLike y x
    → (fits_option 128 x.claimed_by ≡ true → fits_option 128 y.claimed_by ≡ true)
    → row_fits events x ≡ true
    → row_fits events y ≡ true
unfolding row_fits
row_fits_like events x y key (stage, tries, trigger, source) worker h =
    rw (stage, key, tries, trigger, source) (ground (arith, worker))

-- What an update may do to a row: keep its identity and its fit, and open nothing that was closed.
pub record IsClosing (s : WorkItem → Bool) (f : WorkItem → WorkItem) (db : Db) : Type 0 where
  pub id : (x : WorkItem) → (f x).work_item_id ≡ x.work_item_id
  pub key : (x : WorkItem) → (f x).idempotency_key ≡ x.idempotency_key
  pub like : (x : WorkItem) → FitsLike (f x) x
  pub worker :
      (x : WorkItem) → fits_option 128 x.claimed_by ≡ true → fits_option 128 (f x).claimed_by ≡ true
  pub closes :
      (x : WorkItem)
      → In x db.items
      → s x ≡ true
      → is_open (f x).status ≡ true
      → is_open x.status ≡ true

pub IsConsistent-update :
    (s : WorkItem → Bool) (f : WorkItem → WorkItem) (db : Db)
    → IsClosing s f db
    → IsConsistent db
    → IsConsistent (record db { items = update_where s f db.items })
IsConsistent-update s f db c h = record {
  ids = λ i.
      omega (arith, h.ids i, count-update-le (has_id i) s f db.items (λ x m t e. rw (← c.id x) e));
  open_keys = λ k. omega (
    arith,
    h.open_keys k,
    count-update-le (holds_key k) s f db.items (λ x m t e. ground (arith, c.key x, c.closes x m t)),
  );
  rows = all_intro (row_fits db.events) (update_where s f db.items) λ y m.
      let (x, mx, e) = In-update_where y s f db.items m in
      let old = all-In x (row_fits db.events) db.items h.rows mx in
      let new = row_fits_like db.events x (f x) (c.key x) (c.like x) (c.worker x) old in
      ground (arith, e, old, new);
  event_ids = h.event_ids;
}

any_more : {A : Type 0} (p : A → Bool) (xs ys : List A) → any p xs ≡ true → any p (xs ++ ys) ≡ true
any_more p [] ys h = cc
any_more p (x ∷ xs) ys h = ground (arith, any_more p xs ys)

known_more :
    (source : Option ℕ) (events more : List OutboxEvent)
    → is_known events source ≡ true
    → is_known (events ++ more) source ≡ true
known_more none events more h = refl
known_more (some i) events more h = any_more (has_event_id i) events more h

row_fits_more :
    (events more : List OutboxEvent) (x : WorkItem)
    → row_fits events x ≡ true
    → row_fits (events ++ more) x ≡ true
unfolding row_fits
row_fits_more events more x h = ground (arith, known_more x.source_event_id events more)

-- Events with new ids keep the tables consistent.
pub IsConsistent-publish :
    (db : Db) (more : List OutboxEvent)
    → ((i : ℕ) → count (has_event_id i) (db.events ++ more) ≤ 1)
    → IsConsistent db
    → IsConsistent (record db { events = db.events ++ more })
IsConsistent-publish db more once h = record {
  ids = h.ids;
  open_keys = h.open_keys;
  rows =
      all_intro (row_fits (db.events ++ more)) db.items
        λ x m. row_fits_more db.events more x (all-In x (row_fits db.events) db.items h.rows m);
  event_ids = once;
}
