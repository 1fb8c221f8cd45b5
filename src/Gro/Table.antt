-- ===== src/Gro/Table.antt =====
-- src/platform/linux/offload.rs: the tables of `TcpGROTable` and `UdpGROTable`. A hash map is an
-- association list, tried with the equality of the keys; the pool is a stack of vectors.
pub mod Laws
use tun_rs.Base.{Bool, List, [], ◌∷◌, ◌++◌, if◌then◌else◌, replicate, Option, none, some}

-- Both tables, for keys `K` and items `I`.
pub record GroTable (K : Type 0) (I : Type 0) : Type 0 where
  pub items_by_flow : List (K × List I)
  pub items_pool : List (List I)

-- `items_pool.pop().unwrap_or_default()`.
abbrev pub pool_pop : {I : Type 0} → List (List I) → List I × List (List I)
pool_pop [] = ([], [])
pool_pop (items ∷ pool) = (items, pool)

module _ {K : Type 0} {I : Type 0} where
  -- `TcpGROTable::new` and `UdpGROTable::new`, with IDEAL_BATCH_SIZE vectors in the pool.
  abbrev pub new_table : GroTable K I
  new_table = record { items_by_flow = []; items_pool = replicate 128 [] }

  -- `reset`: every flow's vector is cleared and given back to the pool.
  unfoldable pub reset_flows : List (K × List I) → List (List I) → List (List I)
  reset_flows [] pool = pool
  reset_flows (flow ∷ flows) pool = reset_flows flows ([] ∷ pool)

  unfoldable pub reset : GroTable K I → GroTable K I
  unfolding reset_flows
  reset table = record {
    items_by_flow = [];
    items_pool = reset_flows table.items_by_flow table.items_pool;
  }

  module _ (eq : K → K → Bool) where
    -- `items_by_flow.get_mut(&key)`.
    unfoldable pub find_flow : List (K × List I) → K → Option (List I)
    find_flow [] key = none
    find_flow ((k, items) ∷ flows) key =
        let rest = find_flow flows key in if eq key k then some items else rest

    -- What the map holds after a write through that reference.
    unfoldable pub store_flow : List (K × List I) → K → List I → List (K × List I)
    store_flow [] key new = []
    store_flow ((k, items) ∷ flows) key new =
        let rest = store_flow flows key new in
        if eq key k then (k, new) ∷ flows else (k, items) ∷ rest

    -- `entry(key).or_insert_with(..)` and `push(item)`.
    unfoldable pub insert_item : GroTable K I → K → I → GroTable K I
    unfolding find_flow store_flow
    insert_item table key item = elim (find_flow table.items_by_flow key) [
      | some items ↦ record table {
        items_by_flow = store_flow table.items_by_flow key (items ++ item ∷ []);
      }
      | none ↦ record {
        items_by_flow = (key, (pool_pop table.items_pool).0 ++ item ∷ []) ∷ table.items_by_flow;
        items_pool = (pool_pop table.items_pool).1;
      }
    ]
