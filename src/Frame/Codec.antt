-- ===== src/Frame/Codec.antt =====
-- One frame: what `encode` writes, `decode_frame` reads, whatever follows it.
use mathlib.Core.List.{append_assoc}
use lan_secure_file_system.Common.{
  ◌∙◌, ℕ, ◌+◌, ◌≤◌, ◌<◌, ◌≡◌, ap, [], ◌∷◌, ◌++◌, some, arith, length, take, length-append,
  take-append,
}
use lan_secure_file_system.Frame.{
  Bytes, ok, header_size, max_message_size, pack, unpack, encode, decode_frame,
}

-- A length below 2 ^ 32 survives the header.
pub unpack-pack : (n : ℕ) → n < 4294967296 → unpack (pack n) ≡ n
unfolding pack unpack
unpack-pack n h = omega arith

-- A header of four bytes that announces `n`, with at least `n` bytes behind it.
decode_frame_complete :
    (a b c d n : ℕ) (rest : Bytes)
    → unpack (a ∷ b ∷ c ∷ d ∷ []) ≡ n
    → n ≤ max_message_size
    → n ≤ length rest
    → decode_frame (a ∷ b ∷ c ∷ d ∷ rest) ≡ ok (some (take n rest), header_size + n)
unfolding decode_frame
decode_frame_complete a b c d n rest e h k = rw e (ground arith)

decode_frame-pack :
    (n : ℕ) (rest : Bytes)
    → n ≤ max_message_size
    → n ≤ length rest
    → decode_frame (pack n ++ rest) ≡ ok (some (take n rest), header_size + n)
unfolding pack
decode_frame-pack n rest h k =
    decode_frame_complete _ _ _ _ n rest (unpack-pack n (omega arith)) h k

encode-ok :
    (message : Bytes) {bytes : Bytes}
    → encode message ≡ ok bytes
    → (length message ≤ max_message_size) × (bytes ≡ pack (length message) ++ message)
unfolding encode
encode-ok message h = ground arith

length-pack : (n : ℕ) (rest : Bytes) → length (pack n ++ rest) ≡ header_size + length rest
unfolding pack
length-pack n rest = omega arith

-- A message within the limit comes back from its frame, whatever bytes follow the frame, with the
-- length of the frame as the number of bytes used.
pub decode_frame-encode :
    (message after : Bytes) {bytes : Bytes}
    → encode message ≡ ok bytes
    → decode_frame (bytes ++ after) ≡ ok (some message, length bytes)
decode_frame-encode message after h =
    let (small, e) = encode-ok message h in
    rw (e, length-pack (length message) message, append_assoc (pack (length message)) message after)
      (decode_frame-pack (length message) (message ++ after) small
          (omega (arith, length-append message after))
        ∙ ap (λ m. ok (some m, header_size + length message)) (take-append message after))
