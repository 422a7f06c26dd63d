-- ===== src/Transfer/Upload/Completeness.antt =====
-- What a finished upload has sent: every chunk of the file, whatever was lost on the way.
use mathlib.Core.Path.{subst}
use native.Mathlib.Nat.{zero-mul, zero-add}
use lan_secure_file_system.Common.{
  ℕ, zero, suc, ◌*◌, ◌≤◌, ◌<◌, ◌≡◌, refl, ◌∙◌, ap, inl, inr, false, not, ◌&&◌, Option, none, some,
  List, [], ◌++◌, Text, length, take, ltb, ◌==◌, take_all, Bool-cases, arith,
}
use lan_secure_file_system.Frame.{Bytes}
use lan_secure_file_system.Transfer.Download.{is_unknown}
use lan_secure_file_system.Transfer.Download.Resumption.{next_slice, covers}
use lan_secure_file_system.Transfer.Upload.{
  ChunkFrame, Log, opened, Uplink, Upload, uploaded, deduplicated, interrupted, failed, slice, max,
  total_chunks, is_in, indexes, total, finalize, send_missing, attempt_upload, run_upload,
  upload_file,
}
use lan_secure_file_system.Transfer.Upload.Sending.{
  Upload-cases, Ack-cases, Opening-cases, range-is_in, IsSent, IsSent-left, IsSent-right, frames,
  frames-IsSent, SendsAll, send_chunks-sends,
}

module _ (sha : Bytes → Text) (encrypt : (k position : ℕ) → Bytes → Bytes) (size : ℕ)
    (file : Bytes) where
  -- What an upload that is finished has sent
  abbrev pub Completes : Upload → Type 0
  Completes (uploaded log) =
      (index : ℕ)
      → index < total sha encrypt size file
      → IsSent sha encrypt size file index log.sent
  Completes (deduplicated log) = Unit
  Completes (interrupted loss log) = Unit
  Completes (failed failure log) = Unit

  finalize-Completes :
      (link : Uplink) (before after : List ChunkFrame) (u : Upload)
      → ((index : ℕ)
          → index < total sha encrypt size file
          → IsSent sha encrypt size file index (before ++ after))
      → SendsAll sha encrypt size file before after u
      → Completes (finalize sha encrypt size file link u)
  unfolding finalize
  finalize-Completes link before after (uploaded log) all h = elim (Ack-cases link.finalized) [
    | inl a ↦ rw (finalize, a) (λ index lt. rw h (all index lt))
    | inr (inl a) ↦ rw (finalize, a) tt
    | inr (inr (loss, a)) ↦ rw (finalize, a) tt
  ]
  finalize-Completes link before after (deduplicated log) all h = tt
  finalize-Completes link before after (interrupted loss log) all h = tt
  finalize-Completes link before after (failed failure log) all h = tt

  -- What a session that is resumed does not miss was sent to it.
  abbrev pub IsHonest : ((k : ℕ) → List ChunkFrame → Uplink) → Type 0
  IsHonest node =
      (k : ℕ) (sent : List ChunkFrame) (node_size : ℕ) (missing : List ℕ)
      → (node k sent).opening ≡ opened node_size (some missing)
      → (index : ℕ) → index < total sha encrypt size file
      → is_in index missing ≡ false
      → IsSent sha encrypt size file index sent

  module _ (node : (k : ℕ) → List ChunkFrame → Uplink) (honest : IsHonest node) where
    covered :
        (k : ℕ) (log : Log) (node_size : ℕ) (missing : Option (List ℕ))
        → (node k log.sent).opening ≡ opened node_size missing
        → (index : ℕ) → index < total sha encrypt size file
        → IsSent sha encrypt size file index (
            log.sent
            ++ frames sha encrypt size file k 0 (indexes (total sha encrypt size file) missing))
    covered k log n none e index lt = IsSent-right sha encrypt size file index log.sent _ (
        frames-IsSent sha encrypt size file k 0 index _
          (range-is_in 0 (total sha encrypt size file) index (omega arith) (rw zero-add lt)))
    covered k log n (some missing) e index lt = elim (Bool-cases (is_in index missing)) [
      | inl i ↦
          IsSent-right sha encrypt size file index log.sent _
            (frames-IsSent sha encrypt size file k 0 index missing i)
      | inr i ↦
          IsSent-left sha encrypt size file index log.sent _
            (honest k log.sent n missing e index lt i)
    ]

    attempt_upload-Completes :
        (k : ℕ) (log : Log)
        → Completes (attempt_upload sha encrypt size file k (node k log.sent) log)
    unfolding attempt_upload send_missing
    attempt_upload-Completes k log = elim (Opening-cases (node k log.sent).opening) [
      | inl (loss, e) ↦ rw (attempt_upload, e) tt
      | inr (inl (loss, e)) ↦ rw (attempt_upload, e) tt
      | inr (inr (inl e)) ↦ rw (attempt_upload, e) tt
      | inr (inr (inr (inl e))) ↦ rw (attempt_upload, e) tt
      | inr (inr (inr (inr (n, missing, e)))) ↦ elim (Bool-cases (ltb 0 n && not (n == size))) [
        | inl b ↦ rw (attempt_upload, e, b) tt
        | inr b ↦
            rw (attempt_upload, e, b)
              (finalize-Completes (node k log.sent) log.sent _ _ (covered k log n missing e)
                (send_chunks-sends sha encrypt size file k (node k log.sent) _ 0 _ _ log))
      ]
    ]

    run_upload-Completes :
        (attempts k : ℕ) (log : Log)
        → Completes (run_upload sha encrypt size file node attempts k log)
    unfolding run_upload
    run_upload-Completes zero k log = tt
    run_upload-Completes (suc attempts) k log =
        elim (Upload-cases (attempt_upload sha encrypt size file k (node k log.sent) log)) [
          | inl (log', e) ↦ rw (run_upload, e) (subst Completes e (attempt_upload-Completes k log))
          | inr (inl (log', e)) ↦ rw (run_upload, e) tt
          | inr (inr (inl (loss, log', e))) ↦ elim (Bool-cases (is_unknown loss)) [
            | inl u ↦ rw (run_upload, e, u) tt
            | inr u ↦ rw (run_upload, e, u) (run_upload-Completes attempts (suc k) log')
          ]
          | inr (inr (inr (f, log', e))) ↦ rw (run_upload, e) tt
        ]

-- The chunks of a file, one after the other
abbrev pub joined : (size : ℕ) → Bytes → (count : ℕ) → Bytes
joined size file zero = []
joined size file (suc count) = joined size file count ++ slice size file count

joined-take :
    (size : ℕ) (file : Bytes) (count : ℕ) → joined size file count ≡ take (count * size) file
joined-take size file zero = rw zero-mul refl
joined-take size file (suc count) =
    ap (λ xs. xs ++ slice size file count) (joined-take size file count)
    ∙ next_slice size count file

more_covers : (len size chunks : ℕ) → len ≤ chunks * size → len ≤ max 1 chunks * size
more_covers len size zero h = omega arith
more_covers len size (suc n) h = ground (arith, h)

all_covered :
    (size : ℕ) (file : Bytes) → 0 < size → length file ≤ total_chunks size (length file) * size
all_covered size file pos = elim (Bool-cases (ltb 0 (length file))) [
  | inl e ↦ rw e (more_covers (length file) size _ (covers size file pos))
  | inr e ↦ rw (e, zero-mul) (ground arith)
]

joined_whole :
    (sha : Bytes → Text) (encrypt : (k position : ℕ) → Bytes → Bytes) (size : ℕ) (file : Bytes)
    → 0 < size
    → joined size file (total sha encrypt size file) ≡ file
joined_whole sha encrypt size file pos =
    joined-take size file _
    ∙ take_all (total sha encrypt size file * size) file (all_covered size file pos)

-- When an upload ends as completed on a node that, of the chunks, reports as present only some that were
-- sent to it: then every chunk of the file was sent, at its index, with its hash and encrypted, however
-- often the connection was lost; and these chunks, one after the other, are the file.
pub upload_is_complete :
    (sha : Bytes → Text) (encrypt : (k position : ℕ) → Bytes → Bytes)
    (node : (k : ℕ) → List ChunkFrame → Uplink) (max_attempts chunk_size : ℕ) (file : Bytes)
    (log : Log)
    → 0 < chunk_size
    → IsHonest sha encrypt chunk_size file node
    → upload_file sha encrypt node max_attempts chunk_size (some file) ≡ uploaded log
    → ((index : ℕ)
        → index < total_chunks chunk_size (length file)
        → IsSent sha encrypt chunk_size file index log.sent)
      × (joined chunk_size file (total_chunks chunk_size (length file)) ≡ file)
unfolding upload_file
upload_is_complete sha encrypt node max_attempts chunk_size file log pos honest e =
    let sized : (chunk_size == 0) ≡ false = ground arith in
    let whole : Completes sha encrypt chunk_size file
        (upload_file sha encrypt node max_attempts chunk_size (some file)) =
      rw (upload_file, sized)
        (run_upload-Completes sha encrypt chunk_size file node honest _ 0 _) in
    (
      subst (Completes sha encrypt chunk_size file) e whole,
      joined_whole sha encrypt chunk_size file pos,
    )
