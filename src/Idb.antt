-- ===== src/Idb.antt =====
-- The object stores of the browser's database, as apps/extension/src/queue/db.ts and
-- apps/extension/src/artifacts/db.ts open them. A store is the list of its records in the order of
-- their keys, which is the order in which `getAll` returns them; `key` is the store's `keyPath`.
-- A transaction commits as a whole, so it is a function from the stores to the stores.
pub mod Laws
pub mod Ordered
pub mod Members
pub mod Sizes
pub mod Same
use newell_ai.Common.{Ordering, Bool, List, [], ◌∷◌, Option, none, some}
use newell_ai.Common.Keys.{KeyOrder}

module _ {K A : Type 0} ⦃o : KeyOrder K⦄ (key : A → K) where
  -- `store.put(value)`: replaces the record with the same key
  unfoldable pub put : A → List A → List A
  put v [] = v ∷ []
  put v (x ∷ s) =
      let later = put v s in
      elim (o.cmp (key v) (key x)) [
        | Ordering.lt ↦ v ∷ x ∷ s
        | Ordering.eq ↦ v ∷ s
        | Ordering.gt ↦ x ∷ later
      ]

  -- `store.get(k)`
  unfoldable pub get : K → List A → Option A
  get k [] = none
  get k (x ∷ s) = let later = get k s in elim (o.cmp k (key x)) [ Ordering.eq ↦ some x | _ ↦ later ]

  -- `store.delete(k)`
  unfoldable pub delete : K → List A → List A
  delete k [] = []
  delete k (x ∷ s) =
      let later = delete k s in elim (o.cmp k (key x)) [ Ordering.eq ↦ later | _ ↦ x ∷ later ]

  -- `for (const item of items) store.put(item)`
  unfoldable pub put_all : List A → List A → List A
  put_all [] s = s
  put_all (x ∷ xs) s = put_all xs (put x s)
