-- ===== src/Events/Chunking/Cover.antt =====
-- The chunks of a batch have its items, in order, and each fits.
use litestar_queues.Base.{
  ℕ, ◌≡◌, ◌≢◌, ◌≤◌, refl, ap, subst, true, false, some, List, [], ◌∷◌, ◌++◌, get, insert,
  get-insert, get-insert_self, string_eq, leb, leb→le, ltb, length, map, All, pos, inl, inr, ◌⊎◌,
  Bool-cases, Dict, String,
}
use litestar_queues.Ephemeral.Codec.{to_fields}
use litestar_queues.Models.{Value, integer, array, object, Fields}
use litestar_queues.Events.Chunking.{
  QueueEvent, Split, split, is_true, mappings, extract_batch_items, as_items, or_whole,
  replace_batch_items, is_within, flush, chunk_loop, split_event_batch_by_size, payload_of,
}

abbrev pub concat : List (List Fields) → List Fields
concat [] = []
concat (xs ∷ xss) = xs ++ concat xss

append_empty : (xs : List Fields) → xs ++ [] ≡ xs
append_empty [] = refl
append_empty (x ∷ xs) = ap (λ ys. x ∷ ys) (append_empty xs)

append_assoc : (xs ys zs : List Fields) → (xs ++ ys) ++ zs ≡ xs ++ (ys ++ zs)
append_assoc [] ys zs = refl
append_assoc (x ∷ xs) ys zs = ap (λ ws. x ∷ ws) (append_assoc xs ys zs)

mappings-as_items : (items : List Fields) → mappings (as_items items) ≡ some items
unfolding mappings as_items
mappings-as_items [] = refl
mappings-as_items (fs ∷ items) = rw (mappings-as_items items) refl

module _ (to_builtins : QueueEvent → Dict String Value) (from_dict : Dict String Value → QueueEvent)
    (size : QueueEvent → ℕ) (max_bytes : ℕ) (event : QueueEvent) where
  -- The groups of items that make up a result: they are its events, they are `items` one after the other,
  -- none is empty, and each event fits.
  pub record Cover (items : List Fields) (result : Split) : Type 0 where
    pub groups : List (List Fields)
    pub events :
        result ≡ split (map (replace_batch_items to_builtins from_dict size max_bytes event) groups)
    pub whole : concat groups ≡ items
    pub filled : All (λ g. g ≢ []) groups
    pub fits :
        All
          (λ g. size (replace_batch_items to_builtins from_dict size max_bytes event g) ≤ max_bytes)
          groups

  flush-Cover :
      (current items : List Fields) (rest : Split)
      → (current ≡ []) ⊎ (is_within to_builtins from_dict size max_bytes event current ≡ true)
      → Cover items rest
      → Cover (current ++ items) (flush to_builtins from_dict size max_bytes event current rest)
  unfolding flush is_within
  flush-Cover [] items rest h c = c
  flush-Cover (x ∷ current) items rest (inl e) c = absurd (cc e)
  flush-Cover (x ∷ current) items rest (inr e) c = record {
    groups = (x ∷ current) ∷ c.groups;
    events = ap (flush to_builtins from_dict size max_bytes event (x ∷ current)) c.events;
    whole = ap (λ ys. (x ∷ current) ++ ys) c.whole;
    filled = (λ k. cc k, c.filled);
    fits = (leb→le _ _ e, c.fits);
  }

  chunk_loop-Cover :
      (items current : List Fields)
      → (current ≡ []) ⊎ (is_within to_builtins from_dict size max_bytes event current ≡ true)
      → All (λ item. is_within to_builtins from_dict size max_bytes event (item ∷ []) ≡ true) items
      → Cover
          (current ++ items)
          (chunk_loop to_builtins from_dict size max_bytes event items current)
  unfolding chunk_loop
  chunk_loop-Cover [] current h a =
      flush-Cover current [] (split []) h
        (record { groups = []; events = refl; whole = refl; filled = tt; fits = tt })
  chunk_loop-Cover (item ∷ items) current h a =
      elim (Bool-cases
        (is_within to_builtins from_dict size max_bytes event (current ++ item ∷ []))) [
          | inl more ↦ rw more (
              subst
                (λ xs. Cover xs (
                  chunk_loop to_builtins from_dict size max_bytes event items
                    (current ++ item ∷ [])))
                (append_assoc current (item ∷ []) items)
                (chunk_loop-Cover items (current ++ item ∷ []) (inr more) a.1))
          | inr full ↦
              rw (full, a.0)
                (flush-Cover current (item ∷ items) _ h
                  (chunk_loop-Cover items (item ∷ []) (inr a.0) a.1))
        ]

  -- A result with an event is returned as it is.
  or_whole-Cover :
      (x : Fields) (xs : List Fields) (r : Split)
      → Cover (x ∷ xs) r
      → Cover (x ∷ xs) (or_whole to_builtins from_dict size max_bytes event r)
  or_whole-Cover x xs r c = go c.groups c.events c.whole c.filled c.fits
    where
      go :
          (groups : List (List Fields))
          → r ≡ split (map (replace_batch_items to_builtins from_dict size max_bytes event) groups)
          → concat groups ≡ x ∷ xs
          → All (λ g. g ≢ []) groups
          → All
              (λ g.
                size (replace_batch_items to_builtins from_dict size max_bytes event g) ≤ max_bytes)
              groups
          → Cover (x ∷ xs) (or_whole to_builtins from_dict size max_bytes event r)
      go [] e w f t = absurd (cc w)
      go (g ∷ gs) e w f t = record {
        groups = g ∷ gs;
        events = ap (or_whole to_builtins from_dict size max_bytes event) e;
        whole = w;
        filled = f;
        fits = t;
      }

  -- A batch event that exceeds a positive limit, with items that fit one by one, is split: the results are
  -- copies of the event with groups of its items, the groups are the items one after the other in their
  -- order, none is empty, and each result fits the limit.
  pub split_event_batch_by_size_covers :
      (item : Fields) (items : List Fields)
      → extract_batch_items event ≡ some (item ∷ items)
      → ltb max_bytes 1 ≡ false
      → leb (size event) max_bytes ≡ false
      → All
          (λ i. is_within to_builtins from_dict size max_bytes event (i ∷ []) ≡ true)
          (item ∷ items)
      → Cover (item ∷ items) (split_event_batch_by_size to_builtins from_dict size max_bytes event)
  unfolding split_event_batch_by_size
  split_event_batch_by_size_covers item items e positive large fit =
      rw (positive, e, large)
        (or_whole-Cover item items _ (chunk_loop-Cover (item ∷ items) [] (inl refl) fit))

  -- A copy of a batch event with other items has these items, if msgspec keeps the flag of a batch in the
  -- builtins of this event, and if the event built from a mapping has the mapping's payload as it is.
  pub extract_batch_items-replace_batch_items :
      (items : List Fields)
      → ((fields payload : Dict String Value)
          → get "payload" fields ≡ some (object (to_fields payload))
          → (from_dict fields).payload ≡ payload)
      → is_true (get "batch" (payload_of (get "payload" (to_builtins event)))) ≡ true
      → extract_batch_items (replace_batch_items to_builtins from_dict size max_bytes event items)
        ≡ some items
  unfolding extract_batch_items replace_batch_items
  extract_batch_items-replace_batch_items items keeps batch =
      let fields = to_builtins event in
      let old = payload_of (get "payload" fields) in
      let listed = insert "items" (array (as_items items)) old in
      let payload = insert "count" (integer (pos (length items))) listed in
      rw
        (
          keeps (insert "payload" (object (to_fields payload)) fields) payload
              (get-insert_self "payload" (object (to_fields payload)) fields),
          get-insert "count" "batch" (integer (pos (length items))) listed,
          get-insert "items" "batch" (array (as_items items)) old,
          batch,
          get-insert "count" "items" (integer (pos (length items))) listed,
          get-insert_self "items" (array (as_items items)) old,
        )
        (mappings-as_items items)
