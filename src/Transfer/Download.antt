-- ===== src/Transfer/Download.antt =====
-- `download_file` of coordinator-node/network/storage_node_data_plane.py: a download goes to a file `.part`,
-- with a sidecar that tells whose part it is, and goes on from there when a connection is lost. What the
-- storage node does on the k-th connection is a parameter, chunk by chunk, and so is the hash; a hasher is
-- the bytes that it was fed. A number that is absent is 0.
pub mod Integrity
pub mod Resumption
pub mod Success
use lan_secure_file_system.Common.{
  ℕ, zero, suc, ◌+◌, ◌-◌, ◌*◌, ◌/◌, Bool, true, false, not, ◌&&◌, ◌||◌, Option, none, some, List,
  [], ◌++◌, Text, is_empty, text_eq, length, take, ltb, leb, ◌==◌, if◌then◌else◌,
}
use lan_secure_file_system.Frame.{Bytes}

-- How a connection fails: `_ConnectionLost`, another `OSError`, or `socket.gaierror`.
pub data Loss : Type 0 where
  connection_lost socket_error unknown_host : Loss

-- The answer to REQUEST_CHUNK
pub data ChunkReply : Type 0 where
  chunk : (payload : Bytes) (chunk_hash : Text) → ChunkReply
  other_reply : ChunkReply
  cut : Loss → ChunkReply

-- How a connection begins: no connection, one that is lost before the answer to OPEN_DOWNLOAD, or the answer.
pub data Opening : Type 0 where
  unreachable dropped : Loss → Opening
  open_refused : Opening
  opened : (total_chunks size : ℕ) → Opening

pub record Session : Type 0 where
  pub opening : Opening
  pub chunks : ℕ → ChunkReply
  pub decrypt : Bytes → Option Bytes

-- Why a download fails
pub data Failure : Type 0 where
  refused bad_chunk undecryptable gave_up no_host wrong_hash : Failure

pub record DownloadPlan : Type 0 where
  pub sha256_whole : Text
  pub chunk_size : ℕ
  pub size_bytes : ℕ
  pub total_chunks : ℕ

-- `int(plan.get("chunkSize") or 524288)`
abbrev pub chunk_size_of : DownloadPlan → ℕ
chunk_size_of plan = if plan.chunk_size == 0 then 524288 else plan.chunk_size

-- What is in the file, and what the hasher was fed
pub record Progress : Type 0 where
  pub part : Bytes
  pub hashed : Bytes

-- A chunk that was received
pub data Chunk : Type 0 where
  good : Bytes → Chunk
  gone : Loss → Chunk
  bad : Failure → Chunk

pub data Fetched : Type 0 where
  got : Progress → Fetched
  interrupted : Loss → Bytes → Fetched
  stopped : Failure → Bytes → Fetched

-- What lasts from one connection to the next: the file `.part`, and the numbers that a node told.
pub record Partial : Type 0 where
  pub part : Option Bytes
  pub chunks : ℕ
  pub bytes : ℕ

pub data Attempted : Type 0 where
  complete : Progress → Attempted
  lost : Loss → Partial → Attempted
  broken : Failure → Option Bytes → Attempted

abbrev pub or_number : ℕ → ℕ → ℕ
or_number a b = if a == 0 then b else a

abbrev pub content : Option Bytes → Bytes
content none = []
content (some bytes) = bytes

abbrev pub after_fetch : (chunks bytes : ℕ) → Fetched → Attempted
after_fetch chunks bytes (got p) = complete p
after_fetch chunks bytes (interrupted loss part) =
    lost loss (record { part = some part; chunks = chunks; bytes = bytes })
after_fetch chunks bytes (stopped failure part) = broken failure (some part)

-- The whole chunks that the file holds
abbrev pub whole_chunks : ℕ → Bytes → ℕ
whole_chunks size part = length part / size

abbrev pub kept : ℕ → Bytes → Bytes
kept size part = take (whole_chunks size part * size) part

-- `oversized`: more is kept than the file has.
abbrev pub is_oversized : (size : ℕ) → Bytes → (chunks bytes : ℕ) → Bool
is_oversized size part chunks bytes =
    (ltb 0 bytes && ltb bytes (whole_chunks size part * size))
    || (leb bytes 0 && ltb chunks (whole_chunks size part))

-- The end of a download: the content of the target file, or why there is none and what `.part` holds
pub data Ending : Type 0 where
  finished : Bytes → Ending
  failed : Failure → Option Bytes → Ending

abbrev pub is_unknown : Loss → Bool
is_unknown connection_lost = false
is_unknown socket_error = false
is_unknown unknown_host = true

module _ (sha : Bytes → Text) where
  -- A chunk that was decrypted
  unfoldable pub check_chunk : Option Bytes → Text → Chunk
  check_chunk none chunk_hash = bad undecryptable
  check_chunk (some bytes) chunk_hash =
      if text_eq (sha bytes) chunk_hash then good bytes else bad bad_chunk

  unfoldable pub read_chunk : Session → ChunkReply → Chunk
  read_chunk s (chunk payload chunk_hash) = check_chunk (s.decrypt payload) chunk_hash
  read_chunk s other_reply = bad refused
  read_chunk s (cut loss) = gone loss

  -- The loop over the chunks that are missing: `count` of them from `index` on
  unfoldable pub fetch : Session → (count index : ℕ) → Progress → Fetched
  fetch s zero index p = got p
  fetch s (suc count) index p = elim (read_chunk s (s.chunks index)) [
    | good bytes ↦
        fetch s count (suc index) (record { part = p.part ++ bytes; hashed = p.hashed ++ bytes })
    | gone loss ↦ interrupted loss p.part
    | bad failure ↦ stopped failure p.part
  ]

  -- What is fetched on an open connection: the missing tail, or everything
  unfoldable pub fetch_tail : Session → (size : ℕ) → Bytes → (chunks bytes : ℕ) → Fetched
  fetch_tail s size part chunks bytes =
      if is_oversized size part chunks bytes
      then fetch s chunks 0 (record { part = []; hashed = [] })
      else fetch s (chunks - whole_chunks size part) (whole_chunks size part)
          (record { part = kept size part; hashed = kept size part })

  -- One attempt. A chunk that was written in part is cut off first.
  unfoldable pub attempt : Session → (size : ℕ) → Partial → Attempted
  attempt s size st = elim s.opening [
    | unreachable loss ↦
        lost loss
          (record st { part = elim st.part [ none ↦ none | some part ↦ some (kept size part) ] })
    | dropped loss ↦ lost loss (record st { part = some (kept size (content st.part)) })
    | open_refused ↦ broken refused (some (kept size (content st.part)))
    | opened total told ↦
        let chunks = or_number total st.chunks in
        let bytes = or_number told st.bytes in
        after_fetch chunks bytes (fetch_tail s size (content st.part) chunks bytes)
  ]

  -- The comparison with the whole hash, and the renaming
  unfoldable pub finish : Text → Progress → Ending
  finish expected p =
      if not (is_empty expected) && not (text_eq (sha p.hashed) expected)
      then failed wrong_hash none
      else finished p.part

  -- The loop over the attempts that are left; the k-th connection is `node k`.
  unfoldable pub run : (ℕ → Session) → DownloadPlan → (attempts k : ℕ) → Partial → Ending
  run node plan zero k st = failed gave_up st.part
  run node plan (suc attempts) k st = elim (attempt (node k) (chunk_size_of plan) st) [
    | complete p ↦ finish plan.sha256_whole p
    | broken failure part ↦ failed failure part
    | lost loss st' ↦ elim (is_unknown loss) [
      | true ↦ failed no_host st'.part
      | false ↦ run node plan attempts (suc k) st'
    ]
  ]

-- The sidecar `.part.json`
pub record Sidecar : Type 0 where
  pub sha256_whole : Text
  pub chunk_size : ℕ

pub record Disk : Type 0 where
  pub part : Option Bytes
  pub sidecar : Option Sidecar

-- `same_file`
abbrev pub is_same_file : DownloadPlan → Option Sidecar → Bool
is_same_file plan none = false
is_same_file plan (some s) =
    text_eq s.sha256_whole plan.sha256_whole && (s.chunk_size == chunk_size_of plan)

-- The part that the download goes on from
abbrev pub prior_part : DownloadPlan → Disk → Option Bytes
prior_part plan disk = if is_same_file plan disk.sidecar then disk.part else none

-- `download_file`
unfoldable pub download_file :
    (Bytes → Text) → (ℕ → Session) → (max_attempts : ℕ) → DownloadPlan → Disk → Ending
download_file sha node max_attempts plan disk =
    run sha node plan (if max_attempts == 0 then 1 else max_attempts) 0
      (record { part = prior_part plan disk; chunks = plan.total_chunks; bytes = plan.size_bytes })
