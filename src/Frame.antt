-- ===== src/Frame.antt =====
-- coordinator-server/protocol/frame_codec.py, and the loops of
-- coordinator-server/protocol/socket_server.py that take frames off a connection. A byte is a number
-- below 256.
pub mod Codec
pub mod Buffer
pub mod Stream
mod Tests
use lan_secure_file_system.Common.{
  ℕ, zero, suc, ◌+◌, ◌*◌, ◌/◌, ◌%◌, List, [], ◌∷◌, ◌++◌, Option, none, some, Bool, true, false,
  length, take, drop, ltb, if◌then◌else◌,
}

abbrev pub Bytes : Type 0
Bytes = List ℕ

-- A Python call that returns, or raises `ValueError`.
pub data Result (A : Type 0) : Type 0 where
  ok : A → Result A
  value_error : Result A

abbrev pub header_size : ℕ
header_size = 4

abbrev pub max_message_size : ℕ
max_message_size = 10 * 1024 * 1024

-- `struct.pack('!I', n)` of a number below 2 ^ 32
unfoldable pub pack : ℕ → Bytes
pack n = n / 16777216 % 256 ∷ n / 65536 % 256 ∷ n / 256 % 256 ∷ n % 256 ∷ []

-- `struct.unpack('!I', data)[0]`; it is called on four bytes only
unfoldable pub unpack : Bytes → ℕ
unpack (a ∷ b ∷ c ∷ d ∷ []) = a * 16777216 + b * 65536 + c * 256 + d
unpack _ = 0

pub encode : Bytes → Result Bytes
unfolding pack
encode message =
    if ltb max_message_size (length message)
    then value_error
    else ok (pack (length message) ++ message)

decode_header : Bytes → Result (Option ℕ)
unfolding unpack
decode_header bytes =
    if ltb (length bytes) header_size
    then ok none
    else (let n = unpack (take header_size bytes) in
        if ltb max_message_size n then value_error else ok (some n))

-- The message, if the frame is complete, and the number of bytes that it took.
frame_body : Bytes → Result (Option ℕ) → Result (Option Bytes × ℕ)
frame_body bytes value_error = value_error
frame_body bytes (ok none) = ok (none, 0)
frame_body bytes (ok (some n)) =
    if ltb (length bytes) (header_size + n)
    then ok (none, 0)
    else ok (some (take n (drop header_size bytes)), header_size + n)

pub decode_frame : Bytes → Result (Option Bytes × ℕ)
unfolding frame_body decode_header
decode_frame bytes =
    if ltb (length bytes) header_size then ok (none, 0) else frame_body bytes (decode_header bytes)

-- `FrameBuffer`: its one field is the bytearray.
abbrev FrameBuffer : Type 0
FrameBuffer = Bytes

pub append : FrameBuffer → Bytes → FrameBuffer
append buffer bytes = buffer ++ bytes

-- What the loop finds at the front of a buffer.
pub data Extracted : Type 0 where
  frame : Bytes → FrameBuffer → Extracted
  incomplete : Extracted
  invalid : Extracted

remove_frame : FrameBuffer → Result (Option Bytes × ℕ) → Extracted
remove_frame buffer value_error = invalid
remove_frame buffer (ok (none, used)) = incomplete
remove_frame buffer (ok (some message, used)) = frame message (drop used buffer)

-- `extract_frame`: only a complete frame changes the buffer.
pub extract_frame : FrameBuffer → Extracted
unfolding remove_frame decode_frame
extract_frame buffer =
    if ltb (length buffer) header_size
    then incomplete
    else remove_frame buffer (decode_frame buffer)

-- What a connection has delivered to its handlers. A frame that cannot be read makes
-- `_handle_client_data` close the connection and drop it, and its buffer with it.
pub record Delivery : Type 0 where
  pub frames : List Bytes
  pub buffer : FrameBuffer
  pub closed : Bool

abbrev pub deliver : Bytes → Delivery → Delivery
deliver message d = record d { frames = message ∷ d.frames }

-- `_process_buffer`, on fuel; each frame takes four bytes or more, so the length is fuel enough. A message
-- that cannot be parsed or handled, where the source goes on or closes the connection, is not modelled.
pub drain : ℕ → FrameBuffer → Delivery
drain zero buffer = record { frames = []; buffer = buffer; closed = false }
drain (suc fuel) buffer = elim (extract_frame buffer) [
  | frame message rest ↦ deliver message (drain fuel rest)
  | incomplete ↦ record { frames = []; buffer = buffer; closed = false }
  | invalid ↦ record { frames = []; buffer = []; closed = true }
]

pub process_buffer : FrameBuffer → Delivery
process_buffer buffer = drain (suc (length buffer)) buffer

-- One read of the socket (`_handle_client_data`): a closed connection reads nothing more.
pub receive : Delivery → Bytes → Delivery
unfolding append
receive d bytes =
    if d.closed
    then d
    else (let more = process_buffer (append d.buffer bytes) in
        record more { frames = d.frames ++ more.frames })

pub receive_all : Delivery → List Bytes → Delivery
receive_all d [] = d
receive_all d (bytes ∷ reads) = receive_all (receive d bytes) reads

abbrev pub opened : Delivery
opened = record { frames = []; buffer = []; closed = false }
