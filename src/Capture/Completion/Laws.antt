-- ===== src/Capture/Completion/Laws.antt =====
-- When a turn of the assistant counts as complete.
use newell_ai.Common.{
  ℕ, ◌+◌, ◌≤◌, Text, text_eq, text_eq_iff, Option, none, some, true, false, ◌||◌, List, [], ◌∷◌,
  length, leb, ◌==◌, ◌≡◌, ◌≢◌, refl, sym, subst, ◌⊎◌, inl, inr, Bool-cases, arith,
}
use newell_ai.Capture.Completion.{
  StabilityEntry, effective_text, track, evaluate_assistant_completion, Sight, scans,
}

abbrev pub sight_text : Sight → Text
sight_text s = effective_text s.normalized s.has_image

-- Neither a stop button nor a streaming marker is seen, and the turn has the text.
abbrev pub IsQuiet : Text → Sight → Type 0
IsQuiet text s =
    (s.flags.has_stop_affordance ≡ false)
    × (s.flags.has_streaming_marker ≡ false)
    × (sight_text s ≡ text)

-- All scans from one at the time `since` up to the last one were quiet with the same text.
abbrev pub IsQuietSince : Text → ℕ → List Sight → Type 0
IsQuietSince text since [] = ⊥
IsQuietSince text since (s ∷ earlier) =
    IsQuiet text s × ((s.now ≡ since) ⊎ IsQuietSince text since earlier)

abbrev IsTracked : List Sight → Option StabilityEntry → Type 0
IsTracked seen none = Unit
IsTracked seen (some e) = IsQuietSince e.text e.since seen

track-IsTracked :
    (stability : ℕ) (s : Sight) (earlier : List Sight) (entry : Option StabilityEntry)
    → IsQuiet (sight_text s) s
    → IsTracked earlier entry
    → IsTracked (s ∷ earlier) (track (sight_text s) s.now stability entry).1
unfolding track
track-IsTracked stability s earlier none q h = (q, inl refl)
track-IsTracked stability s earlier (some e) q h =
    elim (Bool-cases (text_eq e.text (sight_text s))) [
      | inr n ↦ rw n (q, inl refl)
      | inl y ↦
          let same : e.text ≡ sight_text s = (text_eq_iff e.text (sight_text s)).0 y in
          rw y ((q.0, q.1, sym same), inr h)
    ]

-- What the tracker has of a turn is its text and since when all scans were quiet with it.
scans-IsTracked : (stability : ℕ) (seen : List Sight) → IsTracked seen (scans stability seen).1
unfolding scans evaluate_assistant_completion
scans-IsTracked stability [] = tt
scans-IsTracked stability (s ∷ earlier) =
    elim (Bool-cases (s.flags.has_stop_affordance || s.flags.has_streaming_marker)) [
      | inl f ↦ rw f tt
      | inr f ↦ elim (Bool-cases (length (sight_text s) == 0)) [
        | inl z ↦ rw (f, z) tt
        | inr z ↦
            rw (f, z)
              (track-IsTracked stability s earlier (scans stability earlier).1
                (ground (arith, f), ground (arith, f), refl) (scans-IsTracked stability earlier))
      ]
    ]

track_complete :
    (text : Text) (now stability : ℕ) (entry : Option StabilityEntry)
    → (track text now stability entry).0 ≡ true
    → (e : StabilityEntry) × (entry ≡ some e) × (e.text ≡ text) × (e.since + stability ≤ now)
unfolding track
track_complete text now stability none h = cc
track_complete text now stability (some e) h = elim (Bool-cases (text_eq e.text text)) [
  | inl y ↦
      let late : leb (e.since + stability) now ≡ true = rw y at h in
      (e, refl, (text_eq_iff e.text text).0 y, ground (arith, late))
  | inr n ↦ let bad : false ≡ true = rw n at h in cc
]

-- The last scan is quiet with a text that is not empty, and so were all scans of a span before it
-- that is as long as the stability window or longer.
abbrev pub IsSettled : ℕ → Sight → List Sight → Type 0
IsSettled stability s earlier =
    (sight_text s ≢ [])
    × IsQuiet (sight_text s) s
    × ((since : ℕ) × (since + stability ≤ s.now) × IsQuietSince (sight_text s) since earlier)

-- A turn of the assistant is only complete when neither a stop button nor a streaming marker was
-- seen and its text did not change in any scan for the whole stability window.
pub scans-IsSettled :
    (stability : ℕ) (s : Sight) (earlier : List Sight)
    → (scans stability (s ∷ earlier)).0 ≡ true
    → IsSettled stability s earlier
unfolding scans evaluate_assistant_completion
scans-IsSettled stability s earlier h =
    elim (Bool-cases (s.flags.has_stop_affordance || s.flags.has_streaming_marker)) [
      | inl f ↦ let bad : false ≡ true = rw f at h in cc
      | inr f ↦ elim (Bool-cases (length (sight_text s) == 0)) [
        | inl z ↦ let bad : false ≡ true = rw (f, z) at h in cc
        | inr z ↦
            let done : (track (sight_text s) s.now stability (scans stability earlier).1).0 ≡ true =
              rw (f, z) at h in
            let (e, entry, same, late) = track_complete _ _ _ _ done in
            let tracked : IsQuietSince e.text e.since earlier =
              subst (IsTracked earlier) entry (scans-IsTracked stability earlier) in
            (
              λ empty. filled (sight_text s) empty z,
              (ground (arith, f), ground (arith, f), refl),
              (e.since, late, subst (λ t. IsQuietSince t e.since earlier) same tracked),
            )
      ]
    ]
  where
    filled : (t : Text) → t ≡ [] → (length t == 0) ≡ false → ⊥
    filled [] e z = cc
    filled (c ∷ t) e z = cc
