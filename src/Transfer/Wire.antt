-- ===== src/Transfer/Wire.antt =====
-- The frames of the data plane: `_recv_exact`, `_send_frame` and `_recv_frame`. A socket is the list of
-- the reads that it still gives, an empty read or the end of the list when the other side has closed. A
-- header is its JSON text in UTF-8, which the standard library writes and reads.
pub mod Frames
use lan_secure_file_system.Common.{
  ℕ, zero, suc, ◌-◌, Option, none, some, List, [], ◌∷◌, ◌++◌, length, take, drop, leb, ◌==◌,
  if◌then◌else◌,
}
use lan_secure_file_system.Frame.{Bytes, pack, unpack}

abbrev pub Socket : Type 0
Socket = List Bytes

-- `_recv_exact`; `none` is `_ConnectionLost`. `recv` gives at most what is asked for, and keeps the rest of
-- a longer read.
pub recv_exact : ℕ → Socket → Option (Bytes × Socket)
recv_exact zero socket = some ([], socket)
recv_exact (suc n) [] = none
recv_exact (suc n) (read ∷ reads) =
    let rest = recv_exact (suc n - length read) reads in
    if length read == 0
    then none
    else if leb (length read) (suc n)
    then elim rest [ none ↦ none | some (bytes, socket) ↦ some (read ++ bytes, socket) ]
    else some (take (suc n) read, drop (suc n) read ∷ reads)

-- `_send_frame`, as the bytes that it sends
unfoldable pub send_frame : Bytes → Bytes → Bytes
send_frame header body = pack (length header) ++ (header ++ (pack (length body) ++ body))

-- A text behind its length
pub recv_text : Socket → Option (Bytes × Socket)
recv_text socket = elim (recv_exact 4 socket) [
  | none ↦ none
  | some (size, rest) ↦ recv_exact (unpack size) rest
]

-- `_recv_frame`; an empty body is not read, which is what `recv_exact` does at 0.
pub recv_frame : Socket → Option (Bytes × Bytes × Socket)
recv_frame socket = elim (recv_text socket) [
  | none ↦ none
  | some (header, rest) ↦ elim (recv_text rest) [
    | none ↦ none
    | some (body, behind) ↦ some (header, body, behind)
  ]
]
