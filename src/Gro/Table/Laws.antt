-- ===== src/Gro/Table/Laws.antt =====
-- The hash map and the pool of the tables.
use tun_rs.Base.{
  ◌+◌, ◌<◌, ◌⊎◌, inl, inr, ◌≡◌, refl, Bool, true, if◌then◌else◌, Bool-cases, List, [], ◌∷◌, ◌++◌,
  length, Option, none, some, arith,
}
use tun_rs.Gro.Table.{GroTable, reset, reset_flows, pool_pop, find_flow, store_flow, insert_item}

-- Every vector of the pool is empty.
abbrev pub AllEmpty : {I : Type 0} → List (List I) → Type 0
AllEmpty [] = Unit
AllEmpty (items ∷ pool) = (items ≡ []) × AllEmpty pool

-- Every flow of the map has an item.
abbrev pub Occupied : {K : Type 0} {I : Type 0} → List (K × List I) → Type 0
Occupied [] = Unit
Occupied ((k, items) ∷ flows) = (0 < length items) × Occupied flows

option-cases : {I : Type 0} (o : Option I) → ((x : I) × (o ≡ some x)) ⊎ (o ≡ none)
option-cases none = inr refl
option-cases (some x) = inl (x, refl)

-- What a flow holds, an absent one nothing.
abbrev pub held : {I : Type 0} → Option (List I) → List I
held none = []
held (some items) = items

pool_pop-AllEmpty : {I : Type 0} (pool : List (List I)) → AllEmpty pool → AllEmpty (pool_pop pool).1
pool_pop-AllEmpty [] h = tt
pool_pop-AllEmpty (items ∷ pool) h = h.1

clash :
    {K : Type 0} (eq : K → K → Bool) (eq_sound : (a b : K) → eq a b ≡ true → a ≡ b) (a b c : K)
    → eq a b ≡ true
    → eq a c ≡ true
    → eq b c ≡ true
clash eq eq_sound a b c p q = rw (← eq_sound a b p) q

module _ {K : Type 0} {I : Type 0} where
  reset_flows-AllEmpty :
      (flows : List (K × List I)) (pool : List (List I))
      → AllEmpty pool
      → AllEmpty (reset_flows flows pool)
  unfolding reset_flows
  reset_flows-AllEmpty [] pool h = h
  reset_flows-AllEmpty (flow ∷ flows) pool h = reset_flows-AllEmpty flows ([] ∷ pool) (refl, h)

  reset_flows-length :
      (flows : List (K × List I)) (pool : List (List I))
      → length (reset_flows flows pool) ≡ length flows + length pool
  unfolding reset_flows
  reset_flows-length [] pool = omega arith
  reset_flows-length (flow ∷ flows) pool = omega (arith, reset_flows-length flows ([] ∷ pool))

  -- A reset table has no flow, and its pool has one more empty vector for each flow that it had, when
  -- the pool held empty vectors before.
  pub reset_lem :
      (table : GroTable K I)
      → AllEmpty table.items_pool
      → ((reset table).items_by_flow ≡ [])
        × AllEmpty (reset table).items_pool
        × (length (reset table).items_pool ≡ length table.items_by_flow + length table.items_pool)
  unfolding reset
  reset_lem table h = (
    refl,
    reset_flows-AllEmpty table.items_by_flow table.items_pool h,
    reset_flows-length table.items_by_flow table.items_pool,
  )

  module _ (eq : K → K → Bool) (eq_sound : (a b : K) → eq a b ≡ true → a ≡ b) where
    insert_found :
        (table : GroTable K I) (key : K) (item : I) (old : List I)
        → find_flow eq table.items_by_flow key ≡ some old
        → insert_item eq table key item ≡ record table {
          items_by_flow = store_flow eq table.items_by_flow key (old ++ item ∷ []);
        }
    unfolding insert_item
    insert_found table key item old found = rw (insert_item, found) refl

    insert_absent :
        (table : GroTable K I) (key : K) (item : I)
        → find_flow eq table.items_by_flow key ≡ none
        → insert_item eq table key item ≡ record {
          items_by_flow = (key, (pool_pop table.items_pool).0 ++ item ∷ []) ∷ table.items_by_flow;
          items_pool = (pool_pop table.items_pool).1;
        }
    unfolding insert_item
    insert_absent table key item absent = rw (insert_item, absent) refl

    find-store :
        (flows : List (K × List I)) (key other : K) (old new : List I)
        → find_flow eq flows key ≡ some old
        → find_flow eq (store_flow eq flows key new) other
          ≡ (if eq other key then some new else find_flow eq flows other)
    unfolding find_flow store_flow
    find-store [] key other old new h = absurd (ground arith)
    find-store ((k, items) ∷ flows) key other old new h = elim (Bool-cases (eq key k)) [
      | inl here ↦ rw (here, eq_sound key k here) (ground arith)
      | inr away ↦
          let later = find-store flows key other old new (ground arith) in
          ground (arith, later, clash eq eq_sound other key k)
    ]

    -- After an insert the flow of the key holds what it held and the item behind it, every other flow
    -- what it held, and the pool's vectors are empty if they were.
    pub insert_lem :
        (table : GroTable K I) (key other : K) (item : I)
        → AllEmpty table.items_pool
        → (held (find_flow eq (insert_item eq table key item).items_by_flow other) ≡ (
            if eq other key
            then held (find_flow eq table.items_by_flow key) ++ item ∷ []
            else held (find_flow eq table.items_by_flow other)))
          × AllEmpty (insert_item eq table key item).items_pool
    unfolding find_flow
    insert_lem table key other item h = elim (option-cases (find_flow eq table.items_by_flow key)) [
      | inl (old, found) ↦
          let stored = find-store table.items_by_flow key other old (old ++ item ∷ []) found in
          rw (insert_found table key item old found, found) (rw stored (ground arith), h)
      | inr absent ↦
          rw (insert_absent table key item absent, absent)
            (ground (arith, h), pool_pop-AllEmpty table.items_pool h)
    ]
