-- ===== src/Transfer/Upload.antt =====
-- `upload_file` of coordinator-node/network/storage_node_data_plane.py: chunks go to the storage node under
-- an acknowledgement each, and after a lost connection only those that the node still misses. What the node
-- does on the k-th connection is a parameter that may depend on every chunk sent so far; so are the hash
-- and the cipher. The log has the frames sent and the calls of `progress_callback`.
pub mod Sending
pub mod Completeness
pub mod Reports
mod Tests
use lan_secure_file_system.Common.{
  ℕ, zero, suc, ◌+◌, ◌-◌, ◌*◌, ◌/◌, Bool, true, false, not, ◌&&◌, ◌||◌, Option, none, some, List,
  [], ◌∷◌, ◌++◌, Text, length, take, drop, ltb, leb, ◌==◌, if◌then◌else◌,
}
use lan_secure_file_system.Frame.{Bytes}
use lan_secure_file_system.Transfer.Download.{Loss, is_unknown}

-- The frame UPLOAD_CHUNK
pub record ChunkFrame : Type 0 where
  pub chunk_index : ℕ
  pub chunk_hash : Text
  pub payload : Bytes

-- A call of `progress_callback`
pub record Report : Type 0 where
  pub chunks_done : ℕ
  pub chunks : ℕ
  pub bytes_sent : ℕ
  pub bytes : ℕ

pub record Log : Type 0 where
  pub sent : List ChunkFrame
  pub reports : List Report

-- An answer to a chunk or to FINALIZE_UPLOAD: the status that is asked for, another one, or none.
pub data Ack : Type 0 where
  accepted rejected : Ack
  cut : Loss → Ack

-- How a connection begins. A chunk size of 0 stands for an absent one.
pub data UploadOpening : Type 0 where
  unreachable dropped : Loss → UploadOpening
  open_refused already_stored : UploadOpening
  opened : (chunk_size : ℕ) (missing : Option (List ℕ)) → UploadOpening

pub record Uplink : Type 0 where
  pub opening : UploadOpening
  -- by the position of the chunk on this connection, from 1 on
  pub acks : ℕ → Ack
  pub finalized : Ack

pub data UploadFailure : Type 0 where
  no_source refused size_mismatch unexpected_end chunk_rejected not_finalized gave_up no_host :
      UploadFailure

-- The end of an upload, of an attempt, or of the loop over its chunks
pub data Upload : Type 0 where
  uploaded deduplicated : Log → Upload
  interrupted : Loss → Log → Upload
  failed : UploadFailure → Log → Upload

-- `f.seek(index * size)` and `f.read(size)`
abbrev pub slice : ℕ → Bytes → ℕ → Bytes
slice size file index = take size (drop (index * size) file)

abbrev pub max : ℕ → ℕ → ℕ
max a b = if leb a b then b else a

abbrev pub min : ℕ → ℕ → ℕ
min a b = if leb a b then a else b

-- `expected_total_chunks`; what the plan says is only compared.
abbrev pub total_chunks : ℕ → ℕ → ℕ
total_chunks size file_size = if ltb 0 file_size then max 1 ((file_size + size - 1) / size) else 0

-- `count` numbers from `index` on
unfoldable pub range : (index count : ℕ) → List ℕ
range index zero = []
range index (suc count) = index ∷ range (suc index) count

unfoldable pub is_in : ℕ → List ℕ → Bool
is_in index [] = false
is_in index (i ∷ is) = (index == i) || is_in index is

-- The size of `missing_set`
unfoldable pub distinct : List ℕ → ℕ
distinct [] = 0
distinct (i ∷ is) = if is_in i is then distinct is else suc (distinct is)

-- The bytes of the chunks that are not missing: `count` chunks from `index` on
unfoldable pub bytes_held : (size file_size : ℕ) → List ℕ → (index count : ℕ) → ℕ
bytes_held size file_size missing index zero = 0
bytes_held size file_size missing index (suc count) =
    (if is_in index missing then 0 else min size (file_size - index * size))
    + bytes_held size file_size missing (suc index) count

-- The chunks to send: those that a resumed session misses, or all
abbrev pub indexes : ℕ → Option (List ℕ) → List ℕ
indexes total (some missing) = missing
indexes total none = range 0 total

module _ (sha : Bytes → Text) (encrypt : (k position : ℕ) → Bytes → Bytes) (size : ℕ)
    (file : Bytes) where
  abbrev pub chunk_frame : (k position index : ℕ) → ChunkFrame
  chunk_frame k position index = record {
    chunk_index = index;
    chunk_hash = sha (slice size file index);
    payload = encrypt k position (slice size file index);
  }

  abbrev pub total : ℕ
  total = total_chunks size (length file)

  abbrev pub report : (chunks_done bytes_sent : ℕ) → Report
  report chunks_done bytes_sent = record {
    chunks_done = chunks_done;
    chunks = total;
    bytes_sent = bytes_sent;
    bytes = length file;
  }

  -- The loop over the chunks on the k-th connection, `position` of which are sent. It begins with
  -- `chunks_done` chunks at the node, and has counted `bytes_sent` bytes.
  unfoldable pub send_chunks :
      (k : ℕ) → Uplink → (chunks_done position bytes_sent : ℕ) → List ℕ → Log → Upload
  send_chunks k link chunks_done position bytes_sent [] log = uploaded log
  send_chunks k link chunks_done position bytes_sent (index ∷ rest) log =
      let bytes_now = min (bytes_sent + length (slice size file index)) (length file) in
      let sent = log.sent ++ (chunk_frame k (suc position) index ∷ []) in
      let onward = send_chunks k link chunks_done (suc position) bytes_now rest (record {
        sent = sent;
        reports = log.reports ++ (report (chunks_done + suc position) bytes_now ∷ []);
      }) in
      if (length (slice size file index) == 0) && ltb index total
      then failed unexpected_end log
      else elim (link.acks (suc position)) [
        | accepted ↦ onward
        | rejected ↦ failed chunk_rejected (record log { sent = sent })
        | cut loss ↦ interrupted loss (record log { sent = sent })
      ]

  -- FINALIZE_UPLOAD, after the chunks
  unfoldable pub finalize : Uplink → Upload → Upload
  finalize link (uploaded log) = elim link.finalized [
    | accepted ↦ uploaded log
    | rejected ↦ failed not_finalized log
    | cut loss ↦ interrupted loss log
  ]
  finalize link (deduplicated log) = deduplicated log
  finalize link (interrupted loss log) = interrupted loss log
  finalize link (failed failure log) = failed failure log

  -- The chunks of a session that was opened
  unfoldable pub send_missing : (k : ℕ) → Uplink → List ℕ → Log → Upload
  send_missing k link missing log = finalize link (
      send_chunks k link (total - distinct missing) 0
        (bytes_held size (length file) missing 0 total) missing log)

  -- One attempt
  unfoldable pub attempt_upload : (k : ℕ) → Uplink → Log → Upload
  attempt_upload k link log = elim link.opening [
    | unreachable loss ↦ interrupted loss log
    | dropped loss ↦ interrupted loss log
    | open_refused ↦ failed refused log
    | already_stored ↦ deduplicated log
    | opened node_size missing ↦
        if ltb 0 node_size && not (node_size == size)
        then failed size_mismatch log
        else send_missing k link (indexes total missing) log
  ]

  -- The loop over the attempts that are left
  unfoldable pub run_upload : ((k : ℕ) → List ChunkFrame → Uplink) → (attempts k : ℕ) → Log → Upload
  run_upload node zero k log = failed gave_up log
  run_upload node (suc attempts) k log = elim (attempt_upload k (node k log.sent) log) [
    | uploaded log' ↦ uploaded log'
    | deduplicated log' ↦ deduplicated log'
    | failed failure log' ↦ failed failure log'
    | interrupted loss log' ↦ elim (is_unknown loss) [
      | true ↦ failed no_host log'
      | false ↦ run_upload node attempts (suc k) log'
    ]
  ]

-- `upload_file`, for a plan with this chunk size, from a source file that may be missing
unfoldable pub upload_file :
    (Bytes → Text)
    → ((k position : ℕ) → Bytes → Bytes)
    → ((k : ℕ) → List ChunkFrame → Uplink)
    → (max_attempts chunk_size : ℕ) → Option Bytes
    → Upload
upload_file sha encrypt node max_attempts chunk_size none =
    failed no_source (record { sent = []; reports = [] })
upload_file sha encrypt node max_attempts chunk_size (some file) =
    run_upload sha encrypt (if chunk_size == 0 then 524288 else chunk_size) file node
      (max 1 max_attempts) 0 (record { sent = []; reports = [] })
