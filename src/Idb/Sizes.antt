-- ===== src/Idb/Sizes.antt =====
-- How writes change the number of records.
use newell_ai.Common.{
  ◌≤◌, ◌<◌, Ordering, true, false, List, [], ◌∷◌, ◌≡◌, refl, ◌∙◌, arith, length, All, All-map_imp,
}
use newell_ai.Common.Keys.{KeyOrder, cmp_refl}
use newell_ai.Idb.{put, get, delete, put_all}
use newell_ai.Idb.Ordered.{IsBelow, IsOrdered, put-IsOrdered}
use newell_ai.Idb.Members.{holds, holds-put}

module _ {K A : Type 0} ⦃o : KeyOrder K⦄ (key : A → K) where
  pub holds-IsBelow : (k : K) (s : List A) → IsBelow key k s → holds key k s ≡ false
  unfolding get
  holds-IsBelow k [] h = refl
  holds-IsBelow k (x ∷ s) h = ground (arith, holds-IsBelow k s h.1)

  pub IsBelow-of_lt :
      (j k : K) (s : List A) → o.cmp j k ≡ Ordering.lt → IsBelow key k s → IsBelow key j s
  IsBelow-of_lt j k [] h b = tt
  IsBelow-of_lt j k (x ∷ s) h b = (o.cmp_trans j k (key x) h b.0, IsBelow-of_lt j k s h b.1)

  -- To put a record whose key is there replaces a record.
  pub length-put_held :
      (v : A) (s : List A)
      → IsOrdered key s
      → holds key (key v) s ≡ true
      → length (put key v s) ≡ length s
  unfolding put get
  length-put_held v [] h held = cc
  length-put_held v (x ∷ s) h held = ground (
    arith,
    length-put_held v s h.1,
    holds-IsBelow (key v) s,
    IsBelow-of_lt (key v) (key x) s,
    h.0,
  )

  pub length-put_all_held :
      (xs s : List A)
      → IsOrdered key s
      → All (λ x. holds key (key x) s ≡ true) xs
      → length (put_all key xs s) ≡ length s
  unfolding put_all
  length-put_all_held [] s h held = refl
  length-put_all_held (x ∷ xs) s h (here, held) =
      length-put_all_held xs (put key x s) (put-IsOrdered key x s h) (
        All-map_imp (λ y. holds key (key y) s ≡ true) _ xs (λ y k. holds-put key (key y) x s k)
          held)
      ∙ length-put_held x s h here

  pub length-delete-le : (k : K) (s : List A) → length (delete key k s) ≤ length s
  unfolding delete
  length-delete-le k [] = omega arith
  length-delete-le k (x ∷ s) = ground (arith, length-delete-le k s)

  pub length-delete_held :
      (k : K) (s : List A) → holds key k s ≡ true → length (delete key k s) < length s
  unfolding delete get
  length-delete_held k [] h = cc
  length-delete_held k (x ∷ s) h = ground (arith, length-delete_held k s, length-delete-le k s)

  -- A store holds the keys of its records.
  pub holds_self : (s : List A) → All (λ x. holds key (key x) s ≡ true) s
  unfolding get
  holds_self [] = tt
  holds_self (x ∷ s) = (
    ground (arith, cmp_refl (key x)),
    All-map_imp (λ y. holds key (key y) s ≡ true) _ s (λ y h. ground arith) (holds_self s),
  )
