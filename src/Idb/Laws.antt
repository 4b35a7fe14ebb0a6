-- ===== src/Idb/Laws.antt =====
-- What `get` returns after a write.
use newell_ai.Common.{List, [], ◌∷◌, Option, none, some, ◌≡◌, refl, arith}
use mathlib.Core.Option
use newell_ai.Common.{if◌then◌else◌, map, ap, ◌∙◌}
use newell_ai.Common.Keys.{KeyOrder, same_key, cmp_refl}
use newell_ai.Idb.{put, get, delete, put_all}

module _ {K A : Type 0} ⦃o : KeyOrder K⦄ (key : A → K) where
  pub get-put :
      (j : K) (v : A) (s : List A)
      → get key j (put key v s) ≡ (if same_key j (key v) then some v else get key j s)
  unfolding get put
  get-put j v [] = ground arith
  get-put j v (x ∷ s) = ground (
    arith,
    get-put j v s,
    o.cmp_eq j (key v),
    o.cmp_eq j (key x),
    o.cmp_eq (key v) (key x),
    cmp_refl j,
  )

  pub get-delete :
      (j k : K) (s : List A)
      → get key j (delete key k s) ≡ (if same_key j k then none else get key j s)
  unfolding get delete
  get-delete j k [] = ground arith
  get-delete j k (x ∷ s) = ground (
    arith,
    get-delete j k s,
    o.cmp_eq j k,
    o.cmp_eq j (key x),
    o.cmp_eq k (key x),
    cmp_refl (key x),
  )

  -- A record is found under its own key.
  pub key-get : (j : K) (s : List A) (x : A) → get key j s ≡ some x → key x ≡ j
  unfolding get
  key-get j [] x h = cc
  key-get j (y ∷ s) x h = ground (arith, key-get j s x, o.cmp_eq j (key y))

  -- The last of the written records with the key `j`, if there is one.
  abbrev pub latest : K → List A → Option A → Option A
  latest j [] before = before
  latest j (x ∷ xs) before = latest j xs (if same_key j (key x) then some x else before)

  pub get-put_all :
      (j : K) (xs s : List A) → get key j (put_all key xs s) ≡ latest j xs (get key j s)
  unfolding put_all
  get-put_all j [] s = refl
  get-put_all j (x ∷ xs) s = get-put_all j xs (put key x s) ∙ ap (latest j xs) (get-put j x s)

  pub get-map :
      (f : A → A) (j : K) (s : List A)
      → ((x : A) → key (f x) ≡ key x)
      → get key j (map f s) ≡ Option.map f (get key j s)
  unfolding get
  get-map f j [] same = refl
  get-map f j (x ∷ s) same = ground (arith, get-map f j s same, same x)
