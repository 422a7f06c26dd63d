-- ===== src/Transfer/Upload/Sending.antt =====
-- What the loop over the chunks sends, and the frames in which a chunk is sent.
use mathlib.Core.List.{append_assoc, append-nil}
use lan_secure_file_system.Common.{
  ℕ, zero, suc, ◌+◌, ◌≤◌, ◌<◌, ◌≡◌, refl, sym, ◌∙◌, ap, ◌⊎◌, inl, inr, true, ◌&&◌, Option, List, [],
  ◌∷◌, ◌++◌, Text, length, ltb, ◌==◌, ==_iff, Bool-cases, arith,
}
use lan_secure_file_system.Frame.{Bytes}
use lan_secure_file_system.Transfer.Download.{Loss}
use lan_secure_file_system.Transfer.Upload.{
  ChunkFrame, Log, Ack, accepted, rejected, cut, UploadOpening, unreachable, dropped, open_refused,
  already_stored, opened, Uplink, UploadFailure, Upload, uploaded, deduplicated, interrupted,
  failed, slice, range, is_in, chunk_frame, total, send_chunks,
}

pub Upload-cases :
    (u : Upload)
    → ((log : Log) × (u ≡ uploaded log))
      ⊎ (((log : Log) × (u ≡ deduplicated log))
          ⊎ (((loss : Loss) × (log : Log) × (u ≡ interrupted loss log))
              ⊎ ((f : UploadFailure) × (log : Log) × (u ≡ failed f log))))
Upload-cases (uploaded log) = inl (log, refl)
Upload-cases (deduplicated log) = inr (inl (log, refl))
Upload-cases (interrupted loss log) = inr (inr (inl (loss, log, refl)))
Upload-cases (failed f log) = inr (inr (inr (f, log, refl)))

pub Ack-cases : (a : Ack) → (a ≡ accepted) ⊎ ((a ≡ rejected) ⊎ ((loss : Loss) × (a ≡ cut loss)))
Ack-cases accepted = inl refl
Ack-cases rejected = inr (inl refl)
Ack-cases (cut loss) = inr (inr (loss, refl))

pub Opening-cases :
    (o : UploadOpening)
    → ((loss : Loss) × (o ≡ unreachable loss))
      ⊎ (((loss : Loss) × (o ≡ dropped loss))
          ⊎ ((o ≡ open_refused)
              ⊎ ((o ≡ already_stored)
                  ⊎ ((n : ℕ) × (missing : Option (List ℕ)) × (o ≡ opened n missing)))))
Opening-cases (unreachable loss) = inl (loss, refl)
Opening-cases (dropped loss) = inr (inl (loss, refl))
Opening-cases open_refused = inr (inr (inl refl))
Opening-cases already_stored = inr (inr (inr (inl refl)))
Opening-cases (opened n missing) = inr (inr (inr (inr (n, missing, refl))))

pub range-is_in :
    (from count index : ℕ)
    → from ≤ index
    → index < from + count
    → is_in index (range from count) ≡ true
unfolding is_in range
range-is_in from zero index h lt = absurd (omega arith)
range-is_in from (suc count) index h lt =
    ground (arith, range-is_in (suc from) count index, ==_iff index from)

module _ (sha : Bytes → Text) (encrypt : (k position : ℕ) → Bytes → Bytes) (size : ℕ)
    (file : Bytes) where
  -- The frame carries the chunk at this index, under its hash, encrypted for some connection.
  abbrev pub IsChunk : ℕ → ChunkFrame → Type 0
  IsChunk index f =
      (f.chunk_index ≡ index)
      × (f.chunk_hash ≡ sha (slice size file index))
      × (k : ℕ) × (position : ℕ) × (f.payload ≡ encrypt k position (slice size file index))

  -- One of the frames carries the chunk.
  abbrev pub IsSent : ℕ → List ChunkFrame → Type 0
  IsSent index [] = ⊥
  IsSent index (f ∷ fs) = IsChunk index f ⊎ IsSent index fs

  pub IsSent-left :
      (index : ℕ) (fs gs : List ChunkFrame) → IsSent index fs → IsSent index (fs ++ gs)
  IsSent-left index [] gs h = absurd h
  IsSent-left index (f ∷ fs) gs (inl h) = inl h
  IsSent-left index (f ∷ fs) gs (inr h) = inr (IsSent-left index fs gs h)

  pub IsSent-right :
      (index : ℕ) (fs gs : List ChunkFrame) → IsSent index gs → IsSent index (fs ++ gs)
  IsSent-right index [] gs h = h
  IsSent-right index (f ∷ fs) gs h = inr (IsSent-right index fs gs h)

  -- The frames of the loop over these chunks
  abbrev pub frames : (k position : ℕ) → List ℕ → List ChunkFrame
  frames k position [] = []
  frames k position (index ∷ rest) =
      chunk_frame sha encrypt size file k (suc position) index ∷ frames k (suc position) rest

  pub frames-IsSent :
      (k position index : ℕ) (is : List ℕ)
      → is_in index is ≡ true
      → IsSent index (frames k position is)
  unfolding is_in
  frames-IsSent k position index [] h = ground arith
  frames-IsSent k position index (i ∷ is) h = elim (Bool-cases (index == i)) [
    | inl e ↦
        let same = sym ((==_iff index i).0 e) in
        inl (
          same,
          ap (λ n. sha (slice size file n)) same,
          k,
          suc position,
          ap (λ n. encrypt k (suc position) (slice size file n)) same,
        )
    | inr e ↦ inr (frames-IsSent k (suc position) index is (rw (← h, is_in, e) refl))
  ]

  -- The loop sends the chunks that it is given, if it gets through.
  abbrev pub SendsAll : (before after : List ChunkFrame) → Upload → Type 0
  SendsAll before after (uploaded log) = log.sent ≡ before ++ after
  SendsAll before after (deduplicated log) = ⊥
  SendsAll before after (interrupted loss log) = Unit
  SendsAll before after (failed failure log) = Unit

  SendsAll-onward :
      (xs ys zs : List ChunkFrame) (u : Upload)
      → SendsAll (xs ++ ys) zs u
      → SendsAll xs (ys ++ zs) u
  SendsAll-onward xs ys zs (uploaded log) h = h ∙ append_assoc xs ys zs
  SendsAll-onward xs ys zs (deduplicated log) h = h
  SendsAll-onward xs ys zs (interrupted loss log) h = tt
  SendsAll-onward xs ys zs (failed failure log) h = tt

  pub send_chunks-sends :
      (k : ℕ) (link : Uplink) (chunks_done position bytes_sent : ℕ) (is : List ℕ) (log : Log)
      → SendsAll log.sent
          (frames k position is)
          (send_chunks sha encrypt size file k link chunks_done position bytes_sent is log)
  unfolding send_chunks
  send_chunks-sends k link chunks_done position bytes_sent [] log = sym (append-nil log.sent)
  send_chunks-sends k link chunks_done position bytes_sent (index ∷ is) log =
      elim (Bool-cases
        ((length (slice size file index) == 0) && ltb index (total sha encrypt size file))) [
          | inl e ↦ rw (send_chunks, e) tt
          | inr e ↦ elim (Ack-cases (link.acks (suc position))) [
            | inl a ↦
                rw (send_chunks, e, a)
                  (SendsAll-onward log.sent
                    (chunk_frame sha encrypt size file k (suc position) index ∷ [])
                    (frames k (suc position) is) _
                    (send_chunks-sends k link chunks_done (suc position) _ is _))
            | inr (inl a) ↦ rw (send_chunks, e, a) tt
            | inr (inr (loss, a)) ↦ rw (send_chunks, e, a) tt
          ]
        ]
