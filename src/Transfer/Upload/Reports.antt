-- ===== src/Transfer/Upload/Reports.antt =====
-- What `progress_callback` is told: never more chunks or bytes than the file has.
use mathlib.Core.Path.{subst}
use lan_secure_file_system.Common.{
  ℕ, zero, suc, ◌+◌, ◌≤◌, ◌<◌, ◌≡◌, refl, ap, inl, inr, false, not, ◌&&◌, Option, none, some, List,
  [], ◌∷◌, ◌++◌, Text, length, ltb, ◌==◌, ==_iff, Bool-cases, arith,
}
use lan_secure_file_system.Frame.{Bytes}
use lan_secure_file_system.Transfer.Download.{is_unknown}
use lan_secure_file_system.Transfer.Upload.{
  ChunkFrame, Report, Log, opened, Uplink, Upload, uploaded, deduplicated, interrupted, failed,
  slice, min, range, is_in, distinct, indexes, total, report, send_chunks, finalize, send_missing,
  attempt_upload, run_upload, upload_file,
}
use lan_secure_file_system.Transfer.Upload.Sending.{Upload-cases, Ack-cases, Opening-cases}

-- No more than the file has
pub record IsBounded (chunks size : ℕ) (r : Report) : Type 0 where
  pub same_chunks : r.chunks ≡ chunks
  pub same_bytes : r.bytes ≡ size
  pub few_chunks : r.chunks_done ≤ chunks
  pub few_bytes : r.bytes_sent ≤ size

-- Each of the reports
abbrev pub AllBounded : (chunks size : ℕ) → List Report → Type 0
AllBounded chunks size [] = Unit
AllBounded chunks size (r ∷ rs) = IsBounded chunks size r × AllBounded chunks size rs

AllBounded-append :
    (chunks size : ℕ) (rs : List Report) (r : Report)
    → AllBounded chunks size rs
    → IsBounded chunks size r
    → AllBounded chunks size (rs ++ (r ∷ []))
AllBounded-append chunks size [] r h b = (b, tt)
AllBounded-append chunks size (x ∷ rs) r (hx, h) b = (hx, AllBounded-append chunks size rs r h b)

abbrev pub log_of : Upload → Log
log_of (uploaded log) = log
log_of (deduplicated log) = log
log_of (interrupted loss log) = log
log_of (failed failure log) = log

-- The chunks of a list that are named once, and no more than there are
abbrev pub IsFew : ℕ → List ℕ → Type 0
IsFew chunks is = (distinct is ≡ length is) × (length is ≤ chunks)

range-above : (index from count : ℕ) → index < from → is_in index (range from count) ≡ false
unfolding is_in range
range-above index from zero h = refl
range-above index from (suc count) h =
    ground (arith, range-above index (suc from) count, ==_iff index from)

range-IsFew : (from count : ℕ) → IsFew count (range from count)
unfolding distinct range
range-IsFew from zero = (refl, omega arith)
range-IsFew from (suc count) =
    let (once, few) = range-IsFew (suc from) count in
    (rw (distinct, range-above from (suc from) count (omega arith)) (ap suc once), omega arith)

module _ (sha : Bytes → Text) (encrypt : (k position : ℕ) → Bytes → Bytes) (size : ℕ)
    (file : Bytes) where
  abbrev pub AreBounded : Upload → Type 0
  AreBounded u = AllBounded (total sha encrypt size file) (length file) (log_of u).reports

  send_chunks-bounded :
      (k : ℕ) (link : Uplink) (chunks_done position bytes_sent : ℕ) (is : List ℕ) (log : Log)
      → chunks_done + position + length is ≤ total sha encrypt size file
      → AllBounded (total sha encrypt size file) (length file) log.reports
      → AreBounded (send_chunks sha encrypt size file k link chunks_done position bytes_sent is log)
  unfolding send_chunks
  send_chunks-bounded k link chunks_done position bytes_sent [] log le h = h
  send_chunks-bounded k link chunks_done position bytes_sent (index ∷ is) log le h =
      elim (Bool-cases
        ((length (slice size file index) == 0) && ltb index (total sha encrypt size file))) [
          | inl e ↦ rw (send_chunks, e) h
          | inr e ↦ elim (Ack-cases (link.acks (suc position))) [
            | inl a ↦
                rw (send_chunks, e, a)
                  (send_chunks-bounded k link chunks_done (suc position) _ is _ (omega arith) (
                    AllBounded-append _ _ log.reports _ h (
                      next_bounded chunks_done position
                        (bytes_sent + length (slice size file index)) (length is) le)))
            | inr (inl a) ↦ rw (send_chunks, e, a) h
            | inr (inr (loss, a)) ↦ rw (send_chunks, e, a) h
          ]
        ]
    where
      next_bounded :
          (chunks_done position bytes_sent left : ℕ)
          → chunks_done + position + suc left ≤ total sha encrypt size file
          → IsBounded (total sha encrypt size file) (length file) (
              report sha encrypt size file
                (chunks_done + suc position)
                (min bytes_sent (length file)))
      next_bounded chunks_done position bytes_sent left le = record {
        same_chunks = refl;
        same_bytes = refl;
        few_chunks = omega arith;
        few_bytes = ground arith;
      }

  finalize-bounded :
      (link : Uplink) (u : Upload)
      → AreBounded u
      → AreBounded (finalize sha encrypt size file link u)
  unfolding finalize
  finalize-bounded link (uploaded log) h = elim (Ack-cases link.finalized) [
    | inl a ↦ rw (finalize, a) h
    | inr (inl a) ↦ rw (finalize, a) h
    | inr (inr (loss, a)) ↦ rw (finalize, a) h
  ]
  finalize-bounded link (deduplicated log) h = h
  finalize-bounded link (interrupted loss log) h = h
  finalize-bounded link (failed failure log) h = h

  -- A session that is resumed names each chunk that it misses once, and no more than there are.
  abbrev pub NamesFew : ((k : ℕ) → List ChunkFrame → Uplink) → Type 0
  NamesFew node =
      (k : ℕ) (sent : List ChunkFrame) (node_size : ℕ) (missing : List ℕ)
      → (node k sent).opening ≡ opened node_size (some missing)
      → IsFew (total sha encrypt size file) missing

  module _ (node : (k : ℕ) → List ChunkFrame → Uplink) (few : NamesFew node) where
    IsFew-indexes :
        (k : ℕ) (sent : List ChunkFrame) (node_size : ℕ) (missing : Option (List ℕ))
        → (node k sent).opening ≡ opened node_size missing
        → IsFew (total sha encrypt size file) (indexes (total sha encrypt size file) missing)
    IsFew-indexes k sent n none e = range-IsFew 0 (total sha encrypt size file)
    IsFew-indexes k sent n (some missing) e = few k sent n missing e

    send_missing-bounded :
        (k : ℕ) (link : Uplink) (missing : List ℕ) (log : Log)
        → IsFew (total sha encrypt size file) missing
        → AllBounded (total sha encrypt size file) (length file) log.reports
        → AreBounded (send_missing sha encrypt size file k link missing log)
    unfolding send_missing
    send_missing-bounded k link missing log (once, fits) h =
        finalize-bounded link _
          (send_chunks-bounded k link _ 0 _ missing log (omega (arith, once, fits)) h)

    attempt_upload-bounded :
        (k : ℕ) (log : Log)
        → AllBounded (total sha encrypt size file) (length file) log.reports
        → AreBounded (attempt_upload sha encrypt size file k (node k log.sent) log)
    unfolding attempt_upload
    attempt_upload-bounded k log h = elim (Opening-cases (node k log.sent).opening) [
      | inl (loss, e) ↦ rw (attempt_upload, e) h
      | inr (inl (loss, e)) ↦ rw (attempt_upload, e) h
      | inr (inr (inl e)) ↦ rw (attempt_upload, e) h
      | inr (inr (inr (inl e))) ↦ rw (attempt_upload, e) h
      | inr (inr (inr (inr (n, missing, e)))) ↦ elim (Bool-cases (ltb 0 n && not (n == size))) [
        | inl b ↦ rw (attempt_upload, e, b) h
        | inr b ↦
            rw (attempt_upload, e, b)
              (send_missing-bounded k (node k log.sent) _ log (IsFew-indexes k log.sent n missing e)
                h)
      ]
    ]

    run_upload-bounded :
        (attempts k : ℕ) (log : Log)
        → AllBounded (total sha encrypt size file) (length file) log.reports
        → AreBounded (run_upload sha encrypt size file node attempts k log)
    unfolding run_upload
    run_upload-bounded zero k log h = h
    run_upload-bounded (suc attempts) k log h =
        let bounded = attempt_upload-bounded k log h in
        elim (Upload-cases (attempt_upload sha encrypt size file k (node k log.sent) log)) [
          | inl (log', e) ↦ rw (run_upload, e) (subst AreBounded e bounded)
          | inr (inl (log', e)) ↦ rw (run_upload, e) (subst AreBounded e bounded)
          | inr (inr (inl (loss, log', e))) ↦ elim (Bool-cases (is_unknown loss)) [
            | inl u ↦ rw (run_upload, e, u) (subst AreBounded e bounded)
            | inr u ↦
                rw (run_upload, e, u)
                  (run_upload-bounded attempts (suc k) log' (subst AreBounded e bounded))
          ]
          | inr (inr (inr (f, log', e))) ↦ rw (run_upload, e) (subst AreBounded e bounded)
        ]

-- From a node that names the chunks it misses once each and no more than the file has: however the upload
-- ends and however often it is resumed, every report of its progress tells the right totals, and no more
-- chunks and bytes than these.
pub reports_stay_bounded :
    (sha : Bytes → Text) (encrypt : (k position : ℕ) → Bytes → Bytes)
    (node : (k : ℕ) → List ChunkFrame → Uplink) (max_attempts chunk_size : ℕ) (file : Bytes)
    → 0 < chunk_size
    → NamesFew sha encrypt chunk_size file node
    → AreBounded sha encrypt chunk_size file
        (upload_file sha encrypt node max_attempts chunk_size (some file))
unfolding upload_file
reports_stay_bounded sha encrypt node max_attempts chunk_size file pos few =
    let sized : (chunk_size == 0) ≡ false = ground arith in
    rw (upload_file, sized) (run_upload-bounded sha encrypt chunk_size file node few _ 0 _ tt)
