-- ===== src/Events/Validation.antt =====
-- What the validation of the adopter's columns gives to the filters.
use litestar_queues.Base.{
  ◌≡◌, ◌≢◌, refl, sym, ◌∙◌, ap, Bool, true, false, not, Option, some, List, [], ◌∷◌, ◌&&◌, ◌||◌,
  String, Dict, arith, get, insert, get-insert, get-insert_self, string_eq, ◌==◌, map, All, Apart,
  Bool-cases, Option-cases, inl, inr, ne_of_beq, beq_of_ne, subst,
}
use litestar_queues.Events.Records.{
  EventHistoryExtraColumn, declared_map, resolve_filters, validate_event_extra_filter,
}
use litestar_queues.Events.Columns.{
  is_acceptable, validate_columns, validate_event_history_extra_columns, event_history_column_names,
  reserved_event_history_columns, is_unquoted_identifier_part, holds,
}

guards :
    (a b c d e : Bool)
    → (a && not b && not c && not d && not e) ≡ true
    → (a ≡ true) × (b ≡ false) × (c ≡ false) × (d ≡ false) × (e ≡ false)
guards a b c d e h = ground arith

some_inj :
    (xs ys : List EventHistoryExtraColumn)
    → ◌≡◌ {A = Option (List EventHistoryExtraColumn)} (some xs) (some ys)
    → xs ≡ ys
some_inj xs ys h = cc h

module _ (lower : String → String) where
  -- The columns by their names in lower case.
  abbrev pub folded : List EventHistoryExtraColumn → List (String × EventHistoryExtraColumn)
  folded cs = map (λ c. (lower c.name, c)) cs

  -- What one column must be.
  abbrev pub IsDeclarable : EventHistoryExtraColumn → Type 0
  IsDeclarable c =
      (is_unquoted_identifier_part c.name ≡ true)
      × (holds event_history_column_names (lower c.name) ≡ false)
      × (holds reserved_event_history_columns (lower c.name) ≡ false)
      × (c.source ≢ "")

  record Validated (cs : List EventHistoryExtraColumn) (seen : List String)
      (out : List EventHistoryExtraColumn) : Type 0 where
    same : out ≡ cs
    apart : Apart (folded cs)
    declarable : All IsDeclarable cs
    unseen : All (λ c. holds seen (lower c.name) ≡ false) cs

  acceptable :
      (c : EventHistoryExtraColumn) (seen : List String)
      → is_acceptable (lower c.name) seen c ≡ true
      → IsDeclarable c × (holds seen (lower c.name) ≡ false)
  acceptable c seen h =
      let five =
        guards (is_unquoted_identifier_part c.name)
          (holds event_history_column_names (lower c.name))
          (holds reserved_event_history_columns (lower c.name)) (holds seen (lower c.name))
          (c.source == "") h in
      ((five.0, five.1, five.2, ne_of_beq c.source "" five.4), five.3)

  others :
      (c : EventHistoryExtraColumn) (seen : List String) (cs : List EventHistoryExtraColumn)
      → All (λ x. holds (lower c.name ∷ seen) (lower x.name) ≡ false) cs
      → All (λ y. lower c.name ≢ y.0) (folded cs) × All (λ x. holds seen (lower x.name) ≡ false) cs
  others c seen [] h = (tt, tt)
  others c seen (x ∷ cs) h =
      let rest = others c seen cs h.1 in
      let one = neither (lower x.name == lower c.name) (holds seen (lower x.name)) h.0 in
      ((λ e. ne_of_beq (lower x.name) (lower c.name) one.0 (sym e), rest.0), (one.1, rest.1))
    where
      neither : (a b : Bool) → (a || b) ≡ false → (a ≡ false) × (b ≡ false)
      neither a b h = ground arith

  validate_columns-Validated :
      (cs : List EventHistoryExtraColumn) (seen : List String) (out : List EventHistoryExtraColumn)
      → validate_columns lower cs seen ≡ some out
      → Validated cs seen out
  unfolding validate_columns
  validate_columns-Validated [] seen out h = record {
    same = sym (some_inj [] out h);
    apart = tt;
    declarable = tt;
    unseen = tt;
  }
  validate_columns-Validated (c ∷ cs) seen out h =
      elim (Bool-cases (is_acceptable (lower c.name) seen c)) [
        | inr bad ↦ cc (rw bad at h)
        | inl good ↦ elim (Option-cases (validate_columns lower cs (lower c.name ∷ seen))) [
          | inl failed ↦ cc (rw (good, failed) at h)
          | inr (rest, e) ↦
              let tail = validate_columns-Validated cs (lower c.name ∷ seen) rest e in
              let own = acceptable c seen good in
              let split = others c seen cs tail.unseen in
              record {
                same =
                    sym (some_inj (c ∷ rest) out (rw (good, e) at h)) ∙ ap (λ xs. c ∷ xs) tail.same;
                apart = (split.0, tail.apart);
                declarable = (own.0, tail.declarable);
                unseen = (own.1, split.1);
              }
        ]
      ]

  declared_map-absent :
      (k : String) (cs : List EventHistoryExtraColumn) (known : Dict String String)
      → All (λ y. k ≢ y.0) (folded cs)
      → get k (declared_map lower cs known) ≡ get k known
  unfolding declared_map
  declared_map-absent k [] known h = refl
  declared_map-absent k (c ∷ cs) known h =
      declared_map-absent k cs (insert (lower c.name) c.name known) h.1
      ∙ rw (get-insert (lower c.name) k c.name known, beq_of_ne (lower c.name) k (λ e. h.0 (sym e)))
          refl

  declared_map-All :
      (cs : List EventHistoryExtraColumn) (known : Dict String String)
      → Apart (folded cs)
      → All (λ c. get (lower c.name) (declared_map lower cs known) ≡ some c.name) cs
  unfolding declared_map
  declared_map-All [] known a = tt
  declared_map-All (c ∷ cs) known a = (
    declared_map-absent (lower c.name) cs (insert (lower c.name) c.name known) a.0
        ∙ get-insert_self (lower c.name) c.name known,
    declared_map-All cs (insert (lower c.name) c.name known) a.1,
  )

  -- A declared column is none of the two built-in filters.
  not_built_in :
      (c : EventHistoryExtraColumn)
      → IsDeclarable c
      → (("actor_type" == lower c.name) ≡ false) × (("actor_id" == lower c.name) ≡ false)
  not_built_in c h = (
    beq_of_ne "actor_type" (lower c.name)
        (λ e. clash (subst (λ k. holds event_history_column_names k ≡ false) (sym e) h.1)),
    beq_of_ne "actor_id" (lower c.name)
        (λ e. clash (subst (λ k. holds event_history_column_names k ≡ false) (sym e) h.1)),
  )
    where
      clash : true ≡ false → ⊥
      clash e = cc e

  filter_name :
      (c : EventHistoryExtraColumn) (d : Dict String String)
      → IsDeclarable c
      → get (lower c.name) d ≡ some c.name
      → get (lower c.name) (insert "actor_type" "actor_type" (insert "actor_id" "actor_id" d))
        ≡ some c.name
  filter_name c d ok h =
      let apart = not_built_in c ok in
      rw
        (
          get-insert "actor_type" (lower c.name) "actor_type" (insert "actor_id" "actor_id" d),
          apart.0,
          get-insert "actor_id" (lower c.name) "actor_id" d,
          apart.1,
        )
        h

  resolve_one :
      (key name v : String) (d : Dict String String)
      → get (lower key) d ≡ some name
      → resolve_filters lower d ((key, v) ∷ []) [] ≡ some ((name, v) ∷ [])
  unfolding resolve_filters insert
  resolve_one key name v d h = rw (h, resolve_filters) refl

  filterable :
      (c : EventHistoryExtraColumn) (v : String) (columns : List EventHistoryExtraColumn)
      → IsDeclarable c
      → get (lower c.name) (declared_map lower columns []) ≡ some c.name
      → validate_event_extra_filter lower (some ((c.name, v) ∷ [])) columns
        ≡ some ((c.name, v) ∷ [])
  unfolding validate_event_extra_filter
  filterable c v columns ok h =
      resolve_one c.name c.name v _ (filter_name c (declared_map lower columns []) ok h)

  -- When the validation accepts the adopter's columns, it returns them as they are; each is an identifier that
  -- is no column of the package and no reserved name and has a source, no two have one name in
  -- lower case, and a filter by any of them is accepted and resolves to that column.
  pub validate_event_history_extra_columns_filterable :
      (columns out : List EventHistoryExtraColumn) (v : String)
      → validate_event_history_extra_columns lower columns ≡ some out
      → (out ≡ columns)
        × All IsDeclarable columns
        × Apart (folded columns)
        × All
            (λ c.
              validate_event_extra_filter lower (some ((c.name, v) ∷ [])) columns
              ≡ some ((c.name, v) ∷ []))
            columns
  unfolding validate_event_history_extra_columns
  validate_event_history_extra_columns_filterable columns out v h =
      let ok = validate_columns-Validated columns [] out h in
      (
        ok.same,
        ok.declarable,
        ok.apart,
        both columns ok.declarable (declared_map-All columns [] ok.apart),
      )
    where
      both :
          (cs : List EventHistoryExtraColumn)
          → All IsDeclarable cs
          → All (λ c. get (lower c.name) (declared_map lower columns []) ≡ some c.name) cs
          → All
              (λ c.
                validate_event_extra_filter lower (some ((c.name, v) ∷ [])) columns
                ≡ some ((c.name, v) ∷ []))
              cs
      both [] h k = tt
      both (c ∷ cs) h k = (filterable c v columns h.0 k.0, both cs h.1 k.1)
