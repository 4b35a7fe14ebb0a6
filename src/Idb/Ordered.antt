-- ===== src/Idb/Ordered.antt =====
-- Records in the strict order of their keys: every write keeps it, and a loop that writes back
-- changed copies of records that the store holds changes them in place.
use newell_ai.Common.{
  Ordering, Bool, List, [], ◌∷◌, map, ◌≡◌, refl, ap, arith, All, filter, inl, inr, Bool-cases,
  if◌then◌else◌, ◌∙◌,
}
use newell_ai.Common.Keys.{KeyOrder}
use newell_ai.Idb.{put, delete, put_all}

module _ {K A : Type 0} ⦃o : KeyOrder K⦄ (key : A → K) where
  -- `k` is below every key of the store.
  abbrev pub IsBelow : K → List A → Type 0
  IsBelow k s = All (λ y. o.cmp k (key y) ≡ Ordering.lt) s

  abbrev pub IsOrdered : List A → Type 0
  IsOrdered [] = Unit
  IsOrdered (x ∷ s) = IsBelow (key x) s × IsOrdered s

  IsBelow-trans : (j k : K) (s : List A) → o.cmp j k ≡ Ordering.lt → IsBelow k s → IsBelow j s
  IsBelow-trans j k [] h b = tt
  IsBelow-trans j k (x ∷ s) h b = (o.cmp_trans j k (key x) h b.0, IsBelow-trans j k s h b.1)

  put-IsBelow :
      (k : K) (v : A) (s : List A)
      → o.cmp k (key v) ≡ Ordering.lt
      → IsBelow k s
      → IsBelow k (put key v s)
  unfolding put
  put-IsBelow k v [] h b = (h, tt)
  put-IsBelow k v (x ∷ s) h b = ground (arith, put-IsBelow k v s h b.1)

  pub put-IsOrdered : (v : A) (s : List A) → IsOrdered s → IsOrdered (put key v s)
  unfolding put
  put-IsOrdered v [] h = (tt, tt)
  put-IsOrdered v (x ∷ s) h = ground (
    arith,
    put-IsOrdered v s h.1,
    put-IsBelow (key x) v s,
    o.cmp_flip (key x) (key v),
    o.cmp_eq (key v) (key x),
    IsBelow-trans (key v) (key x) s,
  )

  delete-IsBelow : (k j : K) (s : List A) → IsBelow k s → IsBelow k (delete key j s)
  unfolding delete
  delete-IsBelow k j [] b = tt
  delete-IsBelow k j (x ∷ s) b = ground (arith, delete-IsBelow k j s b.1)

  pub delete-IsOrdered : (k : K) (s : List A) → IsOrdered s → IsOrdered (delete key k s)
  unfolding delete
  delete-IsOrdered k [] h = tt
  delete-IsOrdered k (x ∷ s) h =
      ground (arith, delete-IsOrdered k s h.1, delete-IsBelow (key x) k s)

  pub put_all-IsOrdered : (xs s : List A) → IsOrdered s → IsOrdered (put_all key xs s)
  unfolding put_all
  put_all-IsOrdered [] s h = h
  put_all-IsOrdered (x ∷ xs) s h = put_all-IsOrdered xs (put key x s) (put-IsOrdered x s h)

  put_above :
      (x y : A) (s : List A)
      → o.cmp (key x) (key y) ≡ Ordering.lt
      → put key y (x ∷ s) ≡ x ∷ put key y s
  unfolding put
  put_above x y s h = ground (arith, o.cmp_flip (key x) (key y))

  -- Writes above a record leave it in its place.
  put_all-above :
      (x : A) (items s : List A)
      → IsBelow (key x) items
      → put_all key items (x ∷ s) ≡ x ∷ put_all key items s
  unfolding put_all
  put_all-above x [] s b = refl
  put_all-above x (y ∷ items) s b =
      ap (put_all key items) (put_above x y s b.0) ∙ put_all-above x items (put key y s) b.1

  put_here : (x y : A) (s : List A) → key y ≡ key x → put key y (x ∷ s) ≡ y ∷ s
  unfolding put
  put_here x y s h = ground (arith, o.cmp_eq (key y) (key x))

  module _ (p : A → Bool) (f : A → A) (same : (x : A) → key (f x) ≡ key x) where
    changed-IsBelow : (k : K) (s : List A) → IsBelow k s → IsBelow k (map f (filter p s))
    unfolding filter
    changed-IsBelow k [] b = tt
    changed-IsBelow k (x ∷ s) b = ground (arith, changed-IsBelow k s b.1, same x)

    abbrev pub in_place : A → A
    in_place x = if p x then f x else x

    pub put_all-in_place :
        (s : List A) → IsOrdered s → put_all key (map f (filter p s)) s ≡ map in_place s
    unfolding filter put_all
    put_all-in_place [] h = refl
    put_all-in_place (x ∷ s) h =
        let ih = put_all-in_place s h.1 in
        let above = changed-IsBelow (key x) s h.0 in
        elim (Bool-cases (p x)) [
          | inl yes_p ↦ rw yes_p (
              ap (put_all key (map f (filter p s))) (put_here x (f x) s (same x))
              ∙ put_all-above (f x) (map f (filter p s)) s (rw (same x) above)
              ∙ ap (◌∷◌ (f x)) ih)
          | inr no_p ↦ rw no_p (put_all-above x (map f (filter p s)) s above ∙ ap (◌∷◌ x) ih)
        ]

    in_place-same : (x : A) → key (in_place x) ≡ key x
    in_place-same x = ground (arith, same x)

    map-IsBelow : (k : K) (s : List A) → IsBelow k s → IsBelow k (map in_place s)
    map-IsBelow k [] b = tt
    map-IsBelow k (x ∷ s) b = (rw (in_place-same x) b.0, map-IsBelow k s b.1)

    pub map-in_place-IsOrdered : (s : List A) → IsOrdered s → IsOrdered (map in_place s)
    map-in_place-IsOrdered [] h = tt
    map-in_place-IsOrdered (x ∷ s) h =
        (rw (in_place-same x) (map-IsBelow (key x) s h.0), map-in_place-IsOrdered s h.1)
