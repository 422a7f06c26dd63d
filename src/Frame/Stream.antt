-- ===== src/Frame/Stream.antt =====
-- The stream: the frames that a connection delivers depend on the bytes that arrive, and not on how
-- the reads of the socket cut them.
use mathlib.Core.List.{append-nil, append_assoc, flatten}
use lan_secure_file_system.Common.{
  ℕ, zero, suc, ◌<◌, ◌≡◌, refl, sym, ap, ◌∙◌, inl, inr, List, [], ◌∷◌, ◌++◌, some, true, false,
  arith, length, drop, Bool-cases, drop-append,
}
use lan_secure_file_system.Frame.{
  append, Bytes, ok, encode, decode_frame, extract_frame, frame, incomplete, deliver, Delivery,
  drain, process_buffer, receive, receive_all, opened,
}
use lan_secure_file_system.Frame.Codec.{decode_frame-encode}
use lan_secure_file_system.Frame.Buffer.{
  extract_frame-append, extract_frame-append_invalid, extract_frame_shrinks, Extracted-cases,
  process_buffer-frame, process_buffer-incomplete, process_buffer-invalid,
}

receive-deliver :
    (m : Bytes) (d : Delivery) (b : Bytes) → deliver m (receive d b) ≡ receive (deliver m d) b
unfolding receive
receive-deliver m d b = ground arith

receive-opened :
    (a b : Bytes)
    → receive (record { frames = []; buffer = a; closed = false }) b ≡ process_buffer (a ++ b)
unfolding receive append
receive-opened a b = refl

receive-closed :
    (b : Bytes)
    → receive (record { frames = []; buffer = []; closed = true }) b
      ≡ record { frames = []; buffer = []; closed = true }
unfolding receive
receive-closed b = refl

process_buffer-append :
    (f : ℕ) (a b : Bytes) → length a < f → process_buffer (a ++ b) ≡ receive (process_buffer a) b
process_buffer-append zero a b h = absurd (omega arith)
process_buffer-append (suc f) a b h = elim (Extracted-cases (extract_frame a)) [
  | inl (m, r, e) ↦
      let s = extract_frame_shrinks a m r e in
      rw
        (
          process_buffer-frame (a ++ b) m (r ++ b) (extract_frame-append a b m r e),
          process_buffer-frame a m r e,
        )
        (ap (deliver m) (process_buffer-append f r b (omega arith))
          ∙ receive-deliver m (process_buffer r) b)
  | inr (inl e) ↦ rw (process_buffer-incomplete a e) (sym (receive-opened a b))
  | inr (inr e) ↦
      rw
        (
          process_buffer-invalid (a ++ b) (extract_frame-append_invalid a b e),
          process_buffer-invalid a e,
        )
        (sym (receive-closed b))
]

deliver_frames : List Bytes → Delivery → Delivery
deliver_frames ms d = record d { frames = ms ++ d.frames }

receive-deliver_frames :
    (ms : List Bytes) (d : Delivery) (b : Bytes)
    → deliver_frames ms (receive d b) ≡ receive (deliver_frames ms d) b
unfolding receive deliver_frames append
receive-deliver_frames ms d b =
    ground (arith, append_assoc ms d.frames (process_buffer (d.buffer ++ b)).frames)

-- `receive` on an open connection, and on a closed one.
receive-open :
    (d : Delivery) (b : Bytes)
    → d.closed ≡ false
    → receive d b ≡ deliver_frames d.frames (process_buffer (d.buffer ++ b))
unfolding receive deliver_frames append
receive-open d b e = rw (e, receive)

receive-shut : (d : Delivery) (b : Bytes) → d.closed ≡ true → receive d b ≡ d
unfolding receive
receive-shut d b e = rw (e, receive)

receive-append : (d : Delivery) (a b : Bytes) → receive d (a ++ b) ≡ receive (receive d a) b
receive-append d a b = elim (Bool-cases d.closed) [
  | inl e ↦ rw (receive-shut d (a ++ b) e, receive-shut d a e, receive-shut d b e)
  | inr e ↦
      rw
        (
          receive-open d (a ++ b) e,
          receive-open d a e,
          ← append_assoc d.buffer a b,
          process_buffer-append (suc (length (d.buffer ++ a))) (d.buffer ++ a) b (omega arith),
        )
        (receive-deliver_frames d.frames (process_buffer (d.buffer ++ a)) b)
]

receive_all-receive :
    (d : Delivery) (reads : List Bytes)
    → receive d [] ≡ d
    → receive_all d reads ≡ receive d (flatten reads)
unfolding receive_all flatten
receive_all-receive d [] e = sym e
receive_all-receive d (r ∷ reads) e =
    receive_all-receive (receive d r) reads
      (sym (receive-append d r []) ∙ ap (receive d) (append-nil r))
    ∙ sym (receive-append d r (flatten reads))

receive-opened_nil : receive opened [] ≡ opened
unfolding receive append process_buffer drain extract_frame
receive-opened_nil = refl

-- However the socket cuts the bytes into reads, a connection delivers the same frames, keeps the
-- same bytes for later and closes on the same streams.
pub receive_all-flatten :
    (reads reads' : List Bytes)
    → flatten reads ≡ flatten reads'
    → receive_all opened reads ≡ receive_all opened reads'
receive_all-flatten reads reads' e =
    receive_all-receive opened reads receive-opened_nil
    ∙ ap (receive opened) e
    ∙ sym (receive_all-receive opened reads' receive-opened_nil)

-- The bytes that a sender writes for its messages; `send_message` frames each of them.
abbrev Sends : List Bytes → Bytes → Type 0
Sends [] stream = stream ≡ []
Sends (m ∷ ms) stream =
    (bytes : Bytes) × (after : Bytes) × (encode m ≡ ok bytes)
    × (stream ≡ bytes ++ after)
    × Sends ms after

extract_frame-decoded :
    (a m : Bytes) (n : ℕ) → decode_frame a ≡ ok (some m, n) → extract_frame a ≡ frame m (drop n a)
unfolding extract_frame
extract_frame-decoded a m n h = ground arith

extract_frame-encode :
    (m after : Bytes) {bytes : Bytes}
    → encode m ≡ ok bytes
    → extract_frame (bytes ++ after) ≡ frame m after
extract_frame-encode m after {bytes} h =
    extract_frame-decoded (bytes ++ after) m (length bytes) (decode_frame-encode m after h)
    ∙ ap (frame m) (drop-append bytes after)

extract_frame-nil : extract_frame [] ≡ incomplete
unfolding extract_frame
extract_frame-nil = refl

process_buffer-Sends :
    (ms : List Bytes) (stream : Bytes)
    → Sends ms stream
    → process_buffer stream ≡ record { frames = ms; buffer = []; closed = false }
process_buffer-Sends [] stream e = rw e (process_buffer-incomplete [] extract_frame-nil)
process_buffer-Sends (m ∷ ms) stream (bytes, after, e, p, rest) = rw p (
    process_buffer-frame (bytes ++ after) m after (extract_frame-encode m after e)
    ∙ ap (deliver m) (process_buffer-Sends ms after rest))

-- What one side sends, the other side's handlers receive: for messages within the limit, and any way
-- of cutting their frames into reads, exactly those messages in that order, with nothing left over
-- and the connection open.
pub receive_all-Sends :
    (ms reads : List Bytes)
    → Sends ms (flatten reads)
    → receive_all opened reads ≡ record { frames = ms; buffer = []; closed = false }
receive_all-Sends ms reads h =
    receive_all-receive opened reads receive-opened_nil
    ∙ receive-opened [] (flatten reads)
    ∙ process_buffer-Sends ms (flatten reads) h
