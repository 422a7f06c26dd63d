-- ===== src/Frame/Buffer.antt =====
-- One frame at the front of a buffer, and the loop `process_buffer` that takes the frames off it one by
-- one: coordinator-server/protocol/frame_codec.py and socket_server.py.
use lan_secure_file_system.Common.{
  take-append_le, drop-append_le, length-drop_le, ℕ, zero, suc, ◌+◌, ◌≤◌, ◌<◌, ◌≡◌, refl, ap, ◌⊎◌,
  inl, inr, [], ◌∷◌, ◌++◌, true, false, arith, length, length-append,
}
use lan_secure_file_system.Frame.{
  unpack, Bytes, extract_frame, frame, incomplete, invalid, Extracted, deliver, drain,
  process_buffer,
}

-- The length of a frame is written with the header first; the patterns peel the header off.
add-four : (n : ℕ) → 4 + n ≡ suc (suc (suc (suc n)))
add-four n = omega arith

-- More bytes behind a complete frame do not change it.
pub extract_frame-append :
    (a b m r : Bytes) → extract_frame a ≡ frame m r → extract_frame (a ++ b) ≡ frame m (r ++ b)
unfolding extract_frame
extract_frame-append [] b m r h = ground arith
extract_frame-append (_ ∷ []) b m r h = ground arith
extract_frame-append (_ ∷ _ ∷ []) b m r h = ground arith
extract_frame-append (_ ∷ _ ∷ _ ∷ []) b m r h = ground arith
extract_frame-append (x ∷ y ∷ z ∷ w ∷ t) b m r h =
    let n : ℕ = unpack (x ∷ y ∷ z ∷ w ∷ []) in
    ground (arith, take-append_le n t b, drop-append_le n t b, length-append t b, add-four n)

pub extract_frame-append_invalid :
    (a b : Bytes) → extract_frame a ≡ invalid → extract_frame (a ++ b) ≡ invalid
unfolding extract_frame
extract_frame-append_invalid [] b h = ground arith
extract_frame-append_invalid (_ ∷ []) b h = ground arith
extract_frame-append_invalid (_ ∷ _ ∷ []) b h = ground arith
extract_frame-append_invalid (_ ∷ _ ∷ _ ∷ []) b h = ground arith
extract_frame-append_invalid (x ∷ y ∷ z ∷ w ∷ t) b h = ground arith

pub extract_frame_shrinks : (a m r : Bytes) → extract_frame a ≡ frame m r → length r + 4 ≤ length a
unfolding extract_frame
extract_frame_shrinks [] m r h = ground arith
extract_frame_shrinks (_ ∷ []) m r h = ground arith
extract_frame_shrinks (_ ∷ _ ∷ []) m r h = ground arith
extract_frame_shrinks (_ ∷ _ ∷ _ ∷ []) m r h = ground arith
extract_frame_shrinks (x ∷ y ∷ z ∷ w ∷ t) m r h =
    let n : ℕ = unpack (x ∷ y ∷ z ∷ w ∷ []) in ground (arith, length-drop_le n t, add-four n)

pub Extracted-cases :
    (e : Extracted)
    → ((m : Bytes) × (r : Bytes) × (e ≡ frame m r)) ⊎ ((e ≡ incomplete) ⊎ (e ≡ invalid))
Extracted-cases (frame m r) = inl (m, r, refl)
Extracted-cases incomplete = inr (inl refl)
Extracted-cases invalid = inr (inr refl)

-- Any fuel above the length of the buffer gives the same delivery.
drain_fuel : (f g : ℕ) (a : Bytes) → length a < f → length a < g → drain f a ≡ drain g a
unfolding drain
drain_fuel zero g a h k = absurd (omega arith)
drain_fuel (suc f) zero a h k = absurd (omega arith)
drain_fuel (suc f) (suc g) a h k = elim (Extracted-cases (extract_frame a)) [
  | inl (m, r, e) ↦
      let s = extract_frame_shrinks a m r e in
      rw (e, drain) (ap (deliver m) (drain_fuel f g r (omega arith) (omega arith)))
  | inr (inl e) ↦ rw (e, drain)
  | inr (inr e) ↦ rw (e, drain)
]

drain_finishes :
    (f : ℕ) (a : Bytes)
    → length a < f
    → ((drain f a).closed ≡ true) ⊎ (extract_frame (drain f a).buffer ≡ incomplete)
unfolding drain
drain_finishes zero a h = absurd (omega arith)
drain_finishes (suc f) a h = elim (Extracted-cases (extract_frame a)) [
  | inl (m, r, e) ↦
      let s = extract_frame_shrinks a m r e in rw (e, drain) (drain_finishes f r (omega arith))
  | inr (inl e) ↦ inr (rw (e, drain) e)
  | inr (inr e) ↦ inl (rw (e, drain))
]

-- The fuel of `process_buffer` is enough: the loop has stopped by its own test, at a buffer that
-- holds no complete frame, or by closing the connection.
pub process_buffer_finishes :
    (a : Bytes)
    → ((process_buffer a).closed ≡ true) ⊎ (extract_frame (process_buffer a).buffer ≡ incomplete)
unfolding process_buffer
process_buffer_finishes a = drain_finishes (suc (length a)) a (omega arith)

pub process_buffer-frame :
    (a m r : Bytes) → extract_frame a ≡ frame m r → process_buffer a ≡ deliver m (process_buffer r)
unfolding process_buffer drain
process_buffer-frame a m r e =
    let s = extract_frame_shrinks a m r e in
    rw (e, drain)
      (ap (deliver m) (drain_fuel (length a) (suc (length r)) r (omega arith) (omega arith)))

pub process_buffer-incomplete :
    (a : Bytes)
    → extract_frame a ≡ incomplete
    → process_buffer a ≡ record { frames = []; buffer = a; closed = false }
unfolding process_buffer drain
process_buffer-incomplete a e = rw (e, drain)

pub process_buffer-invalid :
    (a : Bytes)
    → extract_frame a ≡ invalid
    → process_buffer a ≡ record { frames = []; buffer = []; closed = true }
unfolding process_buffer drain
process_buffer-invalid a e = rw (e, drain)
