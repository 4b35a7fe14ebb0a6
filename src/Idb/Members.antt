-- ===== src/Idb/Members.antt =====
-- What holds of every record of a store, and which keys a store holds.
use newell_ai.Common.{
  Bool, true, false, List, [], ◌∷◌, Option, none, some, ◌≡◌, sym, Bool-cases, arith, All, Any, inl,
  inr,
}
use newell_ai.Common.Keys.{KeyOrder, same_key, same_key_iff, cmp_refl}
use newell_ai.Idb.{put, get, delete, put_all}
use newell_ai.Idb.Laws.{get-put}

abbrev pub is_some : {A : Type 0} → Option A → Bool
is_some none = false
is_some (some a) = true

module _ {K A : Type 0} ⦃o : KeyOrder K⦄ (key : A → K) where
  pub put-All : (P : A → Type 0) (v : A) (s : List A) → P v → All P s → All P (put key v s)
  unfolding put
  put-All P v [] p h = (p, tt)
  put-All P v (x ∷ s) p (hx, hs) = ground (arith, put-All P v s p hs)

  pub delete-All : (P : A → Type 0) (k : K) (s : List A) → All P s → All P (delete key k s)
  unfolding delete
  delete-All P k [] h = tt
  delete-All P k (x ∷ s) (hx, hs) = ground (arith, delete-All P k s hs)

  pub put_all-All : (P : A → Type 0) (xs s : List A) → All P xs → All P s → All P (put_all key xs s)
  unfolding put_all
  put_all-All P [] s p h = h
  put_all-All P (x ∷ xs) s (p, ps) h = put_all-All P xs (put key x s) ps (put-All P x s p h)

  pub get-All : (P : A → Type 0) (k : K) (s : List A) (x : A) → All P s → get key k s ≡ some x → P x
  unfolding get
  get-All P k [] x h e = cc
  get-All P k (y ∷ s) x (hy, hs) e = ground (arith, get-All P k s x hs)

  -- Whether the store holds the key.
  abbrev pub holds : K → List A → Bool
  holds k s = is_some (get key k s)

  pub holds-put : (k : K) (v : A) (s : List A) → holds k s ≡ true → holds k (put key v s) ≡ true
  holds-put k v s h = ground (arith, get-put key k v s)

  pub holds-put_self : (v : A) (s : List A) → holds (key v) (put key v s) ≡ true
  holds-put_self v s = ground (arith, get-put key (key v) v s, cmp_refl (key v))

  pub holds-put_all : (k : K) (xs s : List A) → holds k s ≡ true → holds k (put_all key xs s) ≡ true
  unfolding put_all
  holds-put_all k [] s h = h
  holds-put_all k (x ∷ xs) s h = holds-put_all k xs (put key x s) (holds-put k x s h)

  -- A key that the store holds is the key of one of its records.
  pub holds-Any : (k : K) (s : List A) → holds k s ≡ true → Any (λ x. key x ≡ k) s
  unfolding get
  holds-Any k [] h = cc
  holds-Any k (x ∷ s) h = elim (Bool-cases (same_key k (key x))) [
    | inl e ↦ inl (sym ((same_key_iff k (key x)).0 e))
    | inr e ↦ inr (holds-Any k s (ground arith))
  ]
