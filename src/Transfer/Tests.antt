-- ===== src/Transfer/Tests.antt =====
-- Downloads and frames at concrete inputs: a file of five bytes in chunks of two.
use lan_secure_file_system.Common.{
  ℕ, text_eq_iff, not, ◌&&◌, ℕ, is_empty, take, drop, ◌≡◌, refl, inl, inr, true, false, some, [],
  ◌∷◌, ◌++◌, Text, text_eq, arith, if◌then◌else◌, ◌==◌, Bool-cases,
}
use lan_secure_file_system.Frame.{Bytes, pack}
use lan_secure_file_system.Transfer.Download.{
  ChunkReply, Session, opened, chunk, cut, connection_lost, DownloadPlan, Disk, finished, good,
  read_chunk, check_chunk, fetch, fetch_tail, attempt, finish, run, download_file,
}
use lan_secure_file_system.Transfer.Download.Integrity.{download_keeps_promise}
use lan_secure_file_system.Transfer.Download.Resumption.{Serves, ServesAll, slice}
use lan_secure_file_system.Transfer.Download.Success.{
  WholeOrBegun, download_resumes, download_succeeds,
}
use lan_secure_file_system.Transfer.Wire.{Socket, send_frame, recv_frame}
use lan_secure_file_system.Transfer.Wire.Frames.{incoming, recv_frame-send_frame}

-- A hash that tells these texts apart, and a cipher that does nothing
abbrev hash : Bytes → Text
hash bytes = bytes

abbrev file : Bytes
file = 1 ∷ 2 ∷ 3 ∷ 4 ∷ 5 ∷ []

abbrev plan : DownloadPlan
plan = record { sha256_whole = file; chunk_size = 2; size_bytes = 5; total_chunks = 3 }

-- A chunk of the file as it is sent
abbrev served : ℕ → ChunkReply
served index = chunk (slice 2 file index) (slice 2 file index)

-- The first connection is lost at the chunk 1, and the others are not.
abbrev node : ℕ → Session
node k = record {
  opening = opened 3 5;
  chunks = λ index. if (k == 0) && (index == 1) then cut connection_lost else served index;
  decrypt = λ bytes. some bytes;
}

-- A part of three bytes from before, the third being the beginning of a chunk
abbrev disk : Disk
disk = record {
  part = some (1 ∷ 2 ∷ 3 ∷ []);
  sidecar = some (record { sha256_whole = file; chunk_size = 2 });
}

resumed : download_file hash node 5 plan disk ≡ finished file
unfolding download_file run attempt fetch_tail fetch read_chunk check_chunk finish text_eq
resumed = refl

download_keeps_promise_example : text_eq (hash file) file ≡ true
download_keeps_promise_example = download_keeps_promise hash node 5 plan disk file refl resumed

served-good :
    (s : Session) (index : ℕ)
    → s.decrypt (slice 2 file index) ≡ some (slice 2 file index)
    → read_chunk hash s (served index) ≡ good (slice 2 file index)
unfolding read_chunk check_chunk
served-good s index e =
    rw (read_chunk, e, check_chunk, (text_eq_iff (slice 2 file index) (slice 2 file index)).1 refl)
      refl

serves : (k : ℕ) → Serves hash 2 file (node k)
unfolding read_chunk
serves k = record {
  begins = (inr refl, inr refl);
  gives = λ index. elim (Bool-cases ((k == 0) && (index == 1))) [
    | inl e ↦ inr (connection_lost, rw e refl, refl)
    | inr e ↦ inl (rw e (served-good (node k) index refl))
  ];
}

serves_all : ServesAll hash 2 file (node 1)
serves_all = record {
  total = 3;
  told = 5;
  begins = refl;
  gives = λ index. served-good (node 1) index refl;
}

matches : not (is_empty file) && not (text_eq (hash file) file) ≡ false
unfolding text_eq
matches = refl

download_resumes_example : WholeOrBegun file (download_file hash node 5 plan disk)
unfolding text_eq
download_resumes_example =
    download_resumes hash file plan node serves matches 5 disk refl refl (4 ∷ 5 ∷ [], refl)

download_succeeds_example : download_file hash node 5 plan disk ≡ finished file
unfolding text_eq
download_succeeds_example =
    download_succeeds hash file plan node serves matches 5 1 disk refl refl (4 ∷ 5 ∷ [], refl)
      (omega arith) serves_all

-- Two frames in reads of one, of three and of the other bytes
abbrev stream : Bytes
stream = send_frame (1 ∷ []) (2 ∷ 3 ∷ []) ++ (9 ∷ [])

recv_frame-send_frame_example :
    (rest : Socket) × (recv_frame (take 1 stream ∷ take 3 (drop 1 stream) ∷ drop 4 stream ∷ [])
      ≡ some (1 ∷ [], 2 ∷ 3 ∷ [], rest))
    × (incoming rest ≡ 9 ∷ [])
unfolding send_frame pack
recv_frame-send_frame_example =
    recv_frame-send_frame (1 ∷ []) (2 ∷ 3 ∷ []) (9 ∷ [])
      (take 1 stream ∷ take 3 (drop 1 stream) ∷ drop 4 stream ∷ [])
      (omega arith, (omega arith, (omega arith, tt))) (omega arith) (omega arith) refl
