-- ===== src/Idb/Same.antt =====
-- Records that a store already holds.
use newell_ai.Common.{Ordering, List, [], ◌∷◌, some, map, ◌≡◌, refl, arith, All, All-zip_imp}
use newell_ai.Common.Keys.{KeyOrder, cmp_refl}
use newell_ai.Idb.{put, get}
use newell_ai.Idb.Ordered.{IsBelow, IsOrdered}
use newell_ai.Idb.Sizes.{holds-IsBelow, IsBelow-of_lt}

module _ {K A : Type 0} ⦃o : KeyOrder K⦄ (key : A → K) where
  above_self :
      (x : A) (s : List A)
      → IsBelow key (key x) s
      → All (λ y. get key (key y) s ≡ some y) s
      → All (λ y. get key (key y) (x ∷ s) ≡ some y) s
  unfolding get
  above_self x s b h =
      All-zip_imp (λ y. o.cmp (key x) (key y) ≡ Ordering.lt) (λ y. get key (key y) s ≡ some y) _ s
        (λ y lt found. ground (arith, o.cmp_flip (key x) (key y))) b h

  -- Each record of an ordered store is what its key finds.
  pub get_self : (s : List A) → IsOrdered key s → All (λ x. get key (key x) s ≡ some x) s
  unfolding get
  get_self [] h = tt
  get_self (x ∷ s) h = (ground (arith, cmp_refl (key x)), above_self x s h.0 (get_self s h.1))

  -- To put a record that is there changes nothing.
  pub put_same :
      (v : A) (s : List A) → get key (key v) s ≡ some v → IsOrdered key s → put key v s ≡ s
  unfolding put get
  put_same v [] e h = cc
  put_same v (x ∷ s) e h = ground (
    arith,
    put_same v s,
    h.1,
    h.0,
    holds-IsBelow key (key v) s,
    IsBelow-of_lt key (key v) (key x) s,
  )

  pub map-put :
      (f : A → A) (v : A) (s : List A)
      → ((x : A) → key (f x) ≡ key x)
      → map f (put key v s) ≡ put key (f v) (map f s)
  unfolding put
  map-put f v [] same = refl
  map-put f v (x ∷ s) same = ground (arith, map-put f v s same, same v, same x)
