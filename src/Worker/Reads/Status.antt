-- ===== src/Worker/Reads/Status.antt =====
-- `getSystemStatus` of apps/worker/src/db/status.ts. The storage's `head` is a parameter; it is
-- asked no more once it has thrown. The mode and the root of the storage are left out.
use newell_ai.Common.{
  ℕ, suc, ◌+◌, ◌≤◌, Text, Option, none, some, Bool, true, false, List, [], ◌∷◌, map, filter, length,
  ◌≡◌, refl, inl, inr, Bool-cases, arith, ltb, if◌then◌else◌, count_if, length-filter,
}
use newell_ai.Contracts.{
  ArtifactCaptureStatus, metadata_discovered, pending_download, stored, failed_download, rejected,
  conflict, ArtifactStatusCounts, SystemStatus,
}
use newell_ai.Worker.Db.{ArtifactRow, WorkerDb}
use newell_ai.Worker.Artifacts.{Outcome, returned, thrown, is_stored}
use newell_ai.Worker.Reads.{max_of, turn_created_at}

abbrev pub no_counts : ArtifactStatusCounts
no_counts = record {
  stored_count = 0;
  pending_download_count = 0;
  failed_download_count = 0;
  other = 0;
  bytes_missing = 0;
}

-- A row of the grouped counts, for one artifact.
abbrev pub count_status : ArtifactCaptureStatus → ArtifactStatusCounts → ArtifactStatusCounts
count_status stored c = record c { stored_count = c.stored_count + 1 }
count_status pending_download c = record c { pending_download_count = c.pending_download_count + 1 }
count_status failed_download c = record c { failed_download_count = c.failed_download_count + 1 }
count_status metadata_discovered c = record c { other = c.other + 1 }
count_status rejected c = record c { other = c.other + 1 }
count_status conflict c = record c { other = c.other + 1 }

-- The loop over the grouped counts.
unfoldable pub count_statuses : List ArtifactRow → ArtifactStatusCounts
count_statuses [] = no_counts
count_statuses (r ∷ rows) = count_status r.capture_status (count_statuses rows)

-- What the probes have come to: whether the storage answers, and the missing objects.
pub record Probe : Type 0 where
  pub available : Bool
  pub missing : ℕ

abbrev pub missed : Probe → Probe
missed p = record p { missing = p.missing + 1 }

abbrev pub probed : Outcome Bool → Probe → Probe
probed (thrown e) p = record { available = false; missing = p.missing + 1 }
probed (returned there) p = if there then p else missed p

module _ (head : Text → Outcome Bool) where
  abbrev pub probe_location : Option Text → Probe → Probe
  probe_location none p = missed p
  probe_location (some []) p = missed p
  probe_location (some (c ∷ s)) p = if p.available then probed (head (c ∷ s)) p else missed p

  -- The loop over the stored rows.
  unfoldable pub probe_all : List ArtifactRow → Probe → Probe
  probe_all [] p = p
  probe_all (r ∷ rows) p = probe_all rows (probe_location r.storage_location p)

  abbrev pub stored_row : ArtifactRow → Bool
  stored_row r = is_stored r.capture_status

  -- `getSystemStatus`
  unfoldable pub get_system_status : WorkerDb → SystemStatus
  unfolding count_statuses probe_all max_of filter
  get_system_status db =
      let counts = count_statuses db.artifacts in
      let start : Probe = record { available = true; missing = 0 } in
      let probe =
        if ltb 0 counts.stored_count
        then probe_all (filter stored_row db.artifacts) start
        else start in
      record {
        conversation_count = length db.conversations;
        turn_count = length db.turns;
        artifacts = record counts { bytes_missing = probe.missing };
        storage_available = probe.available;
        last_turn_at = max_of (map turn_created_at db.turns);
        last_artifact_at = max_of (map (λ (a : ArtifactRow). a.created_at) db.artifacts);
      }

  probe_location-missing :
      (o : Option Text) (p : Probe) → (probe_location o p).missing ≤ suc p.missing
  probe_location-missing none p = omega arith
  probe_location-missing (some []) p = omega arith
  probe_location-missing (some (c ∷ s)) p = ground arith

  probe_all-missing :
      (rows : List ArtifactRow) (p : Probe) → (probe_all rows p).missing ≤ p.missing + length rows
  unfolding probe_all
  probe_all-missing [] p = omega arith
  probe_all-missing (r ∷ rows) p = omega (
    arith,
    probe_all-missing rows (probe_location r.storage_location p),
    probe_location-missing r.storage_location p,
  )

  stored-count :
      (rows : List ArtifactRow) → (count_statuses rows).stored_count ≡ count_if stored_row rows
  unfolding count_statuses count_if
  stored-count [] = refl
  stored-count (r ∷ rows) = from r.capture_status (stored-count rows)
    where
      from :
          (s : ArtifactCaptureStatus) {n : ℕ}
          → (count_statuses rows).stored_count ≡ n
          → (count_status s (count_statuses rows)).stored_count ≡ (if is_stored s then 1 else 0) + n
      from stored h = omega (arith, h)
      from pending_download h = omega (arith, h)
      from failed_download h = omega (arith, h)
      from metadata_discovered h = omega (arith, h)
      from rejected h = omega (arith, h)
      from conflict h = omega (arith, h)

  counts_add_up :
      (rows : List ArtifactRow)
      → let c = count_statuses rows in
        c.stored_count + c.pending_download_count + c.failed_download_count + c.other ≡ length rows
  unfolding count_statuses
  counts_add_up [] = refl
  counts_add_up (r ∷ rows) = from r.capture_status (counts_add_up rows)
    where
      from :
          (s : ArtifactCaptureStatus)
          → (let c = count_statuses rows in
              c.stored_count + c.pending_download_count + c.failed_download_count + c.other
              ≡ length rows)
          → let c = count_status s (count_statuses rows) in
            c.stored_count + c.pending_download_count + c.failed_download_count + c.other
            ≡ suc (length rows)
      from stored h = omega (arith, h)
      from pending_download h = omega (arith, h)
      from failed_download h = omega (arith, h)
      from metadata_discovered h = omega (arith, h)
      from rejected h = omega (arith, h)
      from conflict h = omega (arith, h)

  -- The status counts every artifact under exactly one heading, and never reports more missing
  -- objects than stored artifacts, whether or not the storage answers.
  pub get_system_status_adds_up :
      (db : WorkerDb)
      → let c = (get_system_status db).artifacts in
        (c.stored_count + c.pending_download_count + c.failed_download_count + c.other
          ≡ length db.artifacts)
        × (c.bytes_missing ≤ c.stored_count)
  unfolding get_system_status
  get_system_status_adds_up db =
      let probes =
        probe_all-missing (filter stored_row db.artifacts)
          (record { available = true; missing = 0 }) in
      let number = length-filter stored_row db.artifacts in
      let all = stored-count db.artifacts in
      (
        counts_add_up db.artifacts,
        elim (Bool-cases (ltb 0 (count_statuses db.artifacts).stored_count)) [
          | inl e ↦ rw e (omega (arith, probes, number, all))
          | inr e ↦ rw e (omega arith)
        ],
      )
