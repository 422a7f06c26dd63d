-- ===== src/Transfer/Wire/Frames.antt =====
-- A frame arrives as it was sent, however the socket cuts it.
use mathlib.Core.List.{append_assoc}
use lan_secure_file_system.Common.{
  ℕ, zero, suc, ◌+◌, ◌-◌, ◌≤◌, ◌<◌, ◌≡◌, refl, sym, ◌∙◌, ap, inl, inr, none, some, [], ◌∷◌, ◌++◌,
  length, take, drop, leb, length-append, length-take_le, length-drop_le, take-append-drop,
  append_cancel, Bool-cases, arith,
}
use lan_secure_file_system.Frame.{Bytes, pack, unpack}
use lan_secure_file_system.Frame.Codec.{unpack-pack}
use lan_secure_file_system.Transfer.Wire.{Socket, recv_exact, send_frame, recv_text, recv_frame}

-- No read is empty: the other side has not closed.
abbrev pub IsOpen : Socket → Type 0
IsOpen [] = Unit {0}
IsOpen (read ∷ reads) = (0 < length read) × IsOpen reads

-- What the socket still gives, in one piece
abbrev pub incoming : Socket → Bytes
incoming [] = []
incoming (read ∷ reads) = read ++ incoming reads

-- What a receive of `bytes` leaves
record Received (socket : Socket) (bytes : Bytes) (rest : Socket) : Type 0 where
  pub whole : bytes ++ incoming rest ≡ incoming socket
  pub is_open : IsOpen rest

recv_exact-enough :
    (n : ℕ) (socket : Socket)
    → IsOpen socket
    → n ≤ length (incoming socket)
    → (bytes : Bytes) × (rest : Socket) × (recv_exact n socket ≡ some (bytes, rest))
      × (length bytes ≡ n)
      × Received socket bytes rest
unfolding recv_exact
recv_exact-enough zero socket o h = ([], socket, refl, refl, record { whole = refl; is_open = o })
recv_exact-enough (suc n) [] o h = absurd (omega arith)
recv_exact-enough (suc n) (read ∷ reads) o h = elim (Bool-cases (leb (length read) (suc n))) [
  | inl short ↦
      let (bytes, rest, e, l, r) =
        recv_exact-enough (suc n - length read) reads o.1
          (omega (arith, length-append read (incoming reads))) in
      (
        read ++ bytes,
        rest,
        ground (arith, e),
        ground (arith, length-append read bytes),
        record {
          whole = append_assoc read bytes (incoming rest) ∙ ap (λ zs. read ++ zs) r.whole;
          is_open = r.is_open;
        },
      )
  | inr long ↦ (
    take (suc n) read,
    drop (suc n) read ∷ reads,
    ground arith,
    length-take_le (suc n) read (ground arith),
    record {
      whole =
          sym (append_assoc (take (suc n) read) (drop (suc n) read) (incoming reads))
          ∙ ap (λ zs. zs ++ incoming reads) (take-append-drop (suc n) read);
      is_open = (ground (arith, length-drop_le (suc n) read), o.1);
    },
  )
]

length-pack : (n : ℕ) → length (pack n) ≡ 4
unfolding pack
length-pack n = refl

length-framed :
    (text more : Bytes)
    → length (pack (length text) ++ (text ++ more)) ≡ 4 + (length text + length more)
length-framed text more = omega (
  arith,
  length-append (pack (length text)) (text ++ more),
  length-append text more,
  length-pack (length text),
)

recv_text-receives :
    (size : Bytes) (socket behind : Socket) {p : Bytes × Socket}
    → recv_exact 4 socket ≡ some (size, behind)
    → recv_exact (unpack size) behind ≡ some p
    → recv_text socket ≡ some p
unfolding recv_text
recv_text-receives size socket behind e d = ground arith

recv_frame-receives :
    (header body : Bytes) (socket behind rest : Socket)
    → recv_text socket ≡ some (header, behind)
    → recv_text behind ≡ some (body, rest)
    → recv_frame socket ≡ some (header, body, rest)
unfolding recv_frame
recv_frame-receives header body socket behind rest e d = ground arith

recv_text-enough :
    (text more : Bytes) (socket : Socket)
    → IsOpen socket
    → length text < 4294967296
    → incoming socket ≡ pack (length text) ++ (text ++ more)
    → (rest : Socket) × (recv_text socket ≡ some (text, rest))
      × (incoming rest ≡ more)
      × IsOpen rest
recv_text-enough text more socket o small e =
    let long : 4 ≤ length (incoming socket) = rw e (omega (arith, length-framed text more)) in
    let (size, behind, e1, l1, r1) = recv_exact-enough 4 socket o long in
    let (is_size, is_behind) =
      append_cancel size (pack (length text)) (l1 ∙ sym (length-pack (length text)))
        (r1.whole ∙ e) in
    let announced : unpack size ≡ length text = rw is_size (unpack-pack (length text) small) in
    let enough : unpack size ≤ length (incoming behind) =
      rw (announced, is_behind) (omega (arith, length-append text more)) in
    let (bytes, rest, e2, l2, r2) = recv_exact-enough (unpack size) behind r1.is_open enough in
    let (is_text, is_more) = append_cancel bytes text (l2 ∙ announced) (r2.whole ∙ is_behind) in
    (
      rest,
      recv_text-receives size socket behind e1 e2 ∙ ap (λ b. some (b, rest)) is_text,
      is_more,
      r2.is_open,
    )

-- What `_send_frame` sends, `_recv_frame` receives: for a header and a body below 4 GiB, and any way of
-- cutting the stream into reads, exactly this header and this body, with what follows the frame left on the
-- socket.
pub recv_frame-send_frame :
    (header body more : Bytes) (socket : Socket)
    → IsOpen socket
    → length header < 4294967296
    → length body < 4294967296
    → incoming socket ≡ send_frame header body ++ more
    → (rest : Socket) × (recv_frame socket ≡ some (header, body, rest)) × (incoming rest ≡ more)
unfolding send_frame
recv_frame-send_frame header body more socket o small small' e =
    let (behind, e1, is_behind, o1) =
      recv_text-enough header ((pack (length body) ++ body) ++ more) socket o small
        (e ∙ regroup (pack (length header)) header (pack (length body) ++ body) more) in
    let (rest, e2, is_rest, o2) =
      recv_text-enough body more behind o1 small'
        (is_behind ∙ append_assoc (pack (length body)) body more) in
    (rest, recv_frame-receives header body socket behind rest e1 e2, is_rest)
  where
    regroup : (a b c d : Bytes) → (a ++ (b ++ c)) ++ d ≡ a ++ (b ++ (c ++ d))
    regroup a b c d = simp append_assoc

-- A connection that ends before a text is complete is lost: no part of it is taken for the whole.
pub recv_exact_lost :
    (n : ℕ) (socket : Socket) → length (incoming socket) < n → recv_exact n socket ≡ none
unfolding recv_exact
recv_exact_lost zero socket h = absurd (omega arith)
recv_exact_lost (suc n) [] h = refl
recv_exact_lost (suc n) (read ∷ reads) h =
    ground (arith, length-append read (incoming reads), recv_exact_lost (suc n - length read) reads)
