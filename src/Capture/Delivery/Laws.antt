-- ===== src/Capture/Delivery/Laws.antt =====
-- When an image is not sent again.
use newell_ai.Common.{
  ℕ, ◌+◌, Text, text_eq, text_eq_iff, Option, none, some, Bool, true, false, not, ◌&&◌, List, [],
  ◌∷◌, any, if◌then◌else◌, ◌≡◌, refl, subst, inl, inr, Bool-cases, arith, count_if, leb, ◌||◌, ◌⊎◌,
}
use newell_ai.Common.Keys.{text_order, cmp_refl, same_key, text_cmp_eq}
use newell_ai.Idb.{put, get}
use newell_ai.Idb.Laws.{get-put, get-delete}
use newell_ai.Capture.Delivery.{
  FailCount, fail_key, fails_of, Deliveries, SendResult, unanswered, acknowledged, failed_with,
  should_skip_artifact, is_identity_unknown, deliver_artifact, no_deliveries,
}

-- An image whose delivery has ended, and how.
pub record Delivered : Type 0 where
  pub key : Option Text
  pub result : SendResult

-- What is kept behind deliveries that end in this order, whatever scans they are of.
unfoldable pub deliver_all : List Delivered → Deliveries → Deliveries
deliver_all [] d = d
deliver_all (a ∷ ends) d = deliver_all ends (deliver_artifact a.key a.result d)

abbrev pub has_key : Option Text → Text → Bool
has_key none key = false
has_key (some k) key = text_eq k key

-- The image has the key and was not refused.
abbrev pub is_sent : Text → Delivered → Bool
is_sent key a =
    has_key a.key key
    && elim a.result [ unanswered ↦ true | acknowledged ↦ true | failed_with error ↦ false ]

-- The image has the key and was refused, and not since its turn was not known yet.
abbrev pub is_refused : Text → Delivered → Bool
is_refused key a = has_key a.key key && elim a.result [
  | unanswered ↦ false
  | acknowledged ↦ false
  | failed_with error ↦ not (is_identity_unknown error)
]

abbrev known : Text → Deliveries → Bool
known key d = any (text_eq key) d.succeeded

abbrev fails : Text → Deliveries → ℕ
fails key d = fails_of (get fail_key key d.fail_counts)

-- One record: the key joins the set when it was sent, and until then the counter counts.
abbrev IsRecorded : Text → Delivered → Deliveries → Deliveries → Type 0
IsRecorded key a d d' =
    (known key d' ≡ (is_sent key a || known key d))
    × ((is_sent key a ≡ true) ⊎ (fails key d' ≡ fails key d + (if is_refused key a then 1 else 0)))

text_eq_self : (k : Text) → text_eq k k ≡ true
text_eq_self k = (text_eq_iff k k).1 refl

fails-put :
    (k : Text) (f : FailCount) (d : Deliveries)
    → f.attempt_key ≡ k
    → get fail_key k (put fail_key f d.fail_counts) ≡ some f
fails-put k f d e = ground (arith, get-put fail_key k f d.fail_counts, cmp_refl k, e)

differ_key : (k key : Text) → text_eq k key ≡ false → text_eq key k ≡ false
differ_key k key e = ground (arith, text_eq_iff k key, text_eq_iff key k, e)

other_key : (k key : Text) → text_eq k key ≡ false → same_key key k ≡ false
other_key k key e = ground (arith, text_eq_iff k key, text_cmp_eq key k, e)

abbrev ended : Text → SendResult → Delivered
ended k r = record { key = some k; result = r }

deliver-IsRecorded_same :
    (k : Text) (r : SendResult) (d : Deliveries)
    → IsRecorded k (ended k r) d (deliver_artifact (some k) r d)
unfolding deliver_artifact any
deliver-IsRecorded_same k unanswered d = rw (text_eq_self k) (refl, inl refl)
deliver-IsRecorded_same k acknowledged d = rw (text_eq_self k) (refl, inl refl)
deliver-IsRecorded_same k (failed_with error) d =
    let n = fails k d in
    elim (Bool-cases (is_identity_unknown error)) [
      | inl e ↦ rw (text_eq_self k, e) (refl, inr (omega arith))
      | inr e ↦
          rw (text_eq_self k, e, fails-put k (record { attempt_key = k; fails = n + 1 }) d refl)
            (refl, inr refl)
    ]

deliver-IsRecorded_other :
    (key k : Text) (r : SendResult) (d : Deliveries)
    → text_eq k key ≡ false
    → IsRecorded key (ended k r) d (deliver_artifact (some k) r d)
unfolding deliver_artifact any
deliver-IsRecorded_other key k unanswered d e = rw (e, differ_key k key e) (refl, inr (omega arith))
deliver-IsRecorded_other key k acknowledged d e =
    rw (e, differ_key k key e, get-delete fail_key key k d.fail_counts, other_key k key e)
      (refl, inr (omega arith))
deliver-IsRecorded_other key k (failed_with error) d e =
    let n = fails k d in
    elim (Bool-cases (is_identity_unknown error)) [
      | inl u ↦ rw (e, u) (refl, inr (omega arith))
      | inr u ↦
          rw
            (
              e,
              u,
              get-put fail_key key (record { attempt_key = k; fails = n + 1 }) d.fail_counts,
              other_key k key e,
            )
            (refl, inr (omega arith))
    ]

deliver-IsRecorded :
    (key : Text) (o : Option Text) (r : SendResult) (d : Deliveries)
    → IsRecorded key (record { key = o; result = r }) d (deliver_artifact o r d)
unfolding deliver_artifact
deliver-IsRecorded key none r d = (refl, inr (omega arith))
deliver-IsRecorded key (some k) r d = elim (Bool-cases (text_eq k key)) [
  | inr e ↦ deliver-IsRecorded_other key k r d e
  | inl e ↦
      subst (λ x. IsRecorded x (ended k r) d (deliver_artifact (some k) r d))
        ((text_eq_iff k key).0 e) (deliver-IsRecorded_same k r d)
]

skip-deliver_all :
    (key : Text) (ends : List Delivered) (d : Deliveries)
    → should_skip_artifact (some key) (deliver_all ends d) ≡ (
        (known key d || leb 1 (count_if (is_sent key) ends))
        || leb 2 (fails key d + count_if (is_refused key) ends))
unfolding deliver_all count_if should_skip_artifact
skip-deliver_all key [] d = ground arith
skip-deliver_all key (a ∷ ends) d =
    let (set, count) = deliver-IsRecorded key a.key a.result d in
    let rest = skip-deliver_all key ends (deliver_artifact a.key a.result d) in
    ground (arith, set, count, rest)

-- In whatever order the deliveries of a session end, and of however many scans that overlap: an
-- image is skipped from then on exactly if one delivery of it was acknowledged or left unanswered,
-- or two were refused, not counting the times that its turn was not known yet.
pub should_skip_artifact-deliver_all :
    (key : Text) (ends : List Delivered)
    → should_skip_artifact (some key) (deliver_all ends no_deliveries)
      ≡ (leb 1 (count_if (is_sent key) ends) || leb 2 (count_if (is_refused key) ends))
unfolding get any
should_skip_artifact-deliver_all key ends = ground (arith, skip-deliver_all key ends no_deliveries)
