-- ===== src/Transfer/Upload/Tests.antt =====
-- Uploads at a concrete input: a file of five bytes in chunks of two, to a node whose first connection is lost.
use lan_secure_file_system.Common.{
  ℕ, ◌<◌, ◌≡◌, ◌==◌, ==_iff, refl, inl, inr, Bool, true, false, ◌&&◌, Option, none, some, List, [],
  ◌∷◌, Text, text_eq, text_eq_iff, Bool-cases, if◌then◌else◌, arith,
}
use lan_secure_file_system.Frame.{Bytes}
use lan_secure_file_system.Transfer.Download.{connection_lost}
use lan_secure_file_system.Transfer.Upload.{
  ChunkFrame, Log, Uplink, opened, accepted, cut, uploaded, slice, range, is_in, distinct,
  bytes_held, send_chunks, finalize, send_missing, attempt_upload, run_upload, upload_file,
}
use lan_secure_file_system.Transfer.Upload.Sending.{IsSent}
use lan_secure_file_system.Transfer.Upload.Completeness.{IsHonest, joined, upload_is_complete}
use lan_secure_file_system.Transfer.Upload.Reports.{
  AreBounded, NamesFew, log_of, reports_stay_bounded,
}

abbrev hash : Bytes → Text
hash bytes = bytes

abbrev file : Bytes
file = 1 ∷ 2 ∷ 3 ∷ 4 ∷ 5 ∷ []

-- A cipher that puts the connection and the position before the bytes
abbrev cipher : (k position : ℕ) → Bytes → Bytes
cipher k position bytes = k ∷ position ∷ bytes

-- The node has the chunk 0.
abbrev has_first : List ChunkFrame → Bool
has_first [] = false
has_first (f ∷ fs) =
    (f.chunk_index == 0)
    && (text_eq f.chunk_hash (slice 2 file 0) && text_eq f.payload (cipher 0 1 (slice 2 file 0)))

abbrev missing : List ChunkFrame → Option (List ℕ)
missing sent = if has_first sent then some (1 ∷ 2 ∷ []) else none

-- The first connection is lost at its second chunk, and the others are not.
abbrev storage : (k : ℕ) → List ChunkFrame → Uplink
storage k sent = record {
  opening = opened 2 (missing sent);
  acks = λ position. if (k == 0) && (position == 2) then cut connection_lost else accepted;
  finalized = accepted;
}

abbrev sent_log : Log
sent_log = log_of (upload_file hash cipher storage 5 2 (some file))

stored : upload_file hash cipher storage 5 2 (some file) ≡ uploaded sent_log
unfolding upload_file run_upload attempt_upload send_missing finalize send_chunks bytes_held
    distinct is_in range text_eq
stored = refl

first_parts : (a b c : Bool) → (a && (b && c)) ≡ true → (a ≡ true) × (b ≡ true) × (c ≡ true)
first_parts true true true h = (refl, refl, refl)
first_parts true true false h = ground (arith, h)
first_parts true false c h = ground (arith, h)
first_parts false b c h = ground (arith, h)

opening_missing :
    (n : ℕ) (is : List ℕ) (sent : List ChunkFrame)
    → opened 2 (missing sent) ≡ opened n (some is)
    → (has_first sent ≡ true) × (is ≡ 1 ∷ 2 ∷ [])
opening_missing n is sent e = elim (Bool-cases (has_first sent)) [
  | inl h ↦ (h, ground (arith, h))
  | inr h ↦ absurd (ground (arith, h))
]

honest : IsHonest hash cipher 2 file storage
unfolding is_in
honest k sent n is e index lt h =
    first sent index (opening_missing n is sent e).0
      (ground (arith, (opening_missing n is sent e).1, h, lt))
  where
    first :
        (fs : List ChunkFrame) (index : ℕ)
        → has_first fs ≡ true
        → index ≡ 0
        → IsSent hash cipher 2 file index fs
    first [] index h z = ground arith
    first (f ∷ fs) index h z =
        let parts = first_parts (f.chunk_index == 0) _ _ h in
        inl (
          rw z ((==_iff f.chunk_index 0).0 parts.0),
          rw z ((text_eq_iff f.chunk_hash (slice 2 file 0)).0 parts.1),
          0,
          1,
          rw z ((text_eq_iff f.payload (cipher 0 1 (slice 2 file 0))).0 parts.2),
        )

few : NamesFew hash cipher 2 file storage
unfolding distinct is_in
few k sent n is e = rw (opening_missing n is sent e).1 (refl, omega arith)

upload_is_complete_example :
    ((index : ℕ) → index < 3 → IsSent hash cipher 2 file index sent_log.sent)
    × (joined 2 file 3 ≡ file)
upload_is_complete_example =
    upload_is_complete hash cipher storage 5 2 file sent_log (omega arith) honest stored

reports_stay_bounded_example :
    AreBounded hash cipher 2 file (upload_file hash cipher storage 5 2 (some file))
reports_stay_bounded_example = reports_stay_bounded hash cipher storage 5 2 file (omega arith) few
