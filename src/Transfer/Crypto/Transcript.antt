-- ===== src/Transfer/Crypto/Transcript.antt =====
-- What the key of a connection binds, and what comes through its cipher.
use lan_secure_file_system.Common.{
  ℕ, ◌<◌, ◌≡◌, refl, sym, ◌∙◌, ap, false, Option, some, List, [], ◌∷◌, ◌++◌, length, take, drop,
  leb, text_eq, length-append, take-append, drop-append, arith,
}
use lan_secure_file_system.Frame.{Bytes, pack, unpack}
use lan_secure_file_system.Frame.Codec.{unpack-pack}
use lan_secure_file_system.Transfer.Crypto.{
  hybrid, ecdh_only, protocol_name, transcript_label, length_prefixed, encrypt, decrypt, Protocol,
  Secrets, ikm, info,
}

-- Parts whose length fits into four bytes
abbrev pub AllSmall : List Bytes → Type 0
AllSmall [] = Unit
AllSmall (part ∷ parts) = (length part < 4294967296) × AllSmall parts

-- As many parts
abbrev pub AreAsMany : List Bytes → List Bytes → Type 0
AreAsMany [] [] = Unit
AreAsMany [] (y ∷ ys) = ⊥
AreAsMany (x ∷ xs) [] = ⊥
AreAsMany (x ∷ xs) (y ∷ ys) = AreAsMany xs ys

take-length-append : (m n : ℕ) (xs ys : Bytes) → length xs ≡ m → take m (xs ++ ys) ≡ xs
take-length-append m n xs ys e = rw (← e) (take-append xs ys)

same_heads : (a b c d : Bytes) → length a ≡ length b → a ++ c ≡ b ++ d → (a ≡ b) × (c ≡ d)
same_heads a b c d l e = (
  sym (take-append a c) ∙ ap (take (length a)) e ∙ ap (λ n. take n (b ++ d)) l ∙ take-append b d,
  sym (drop-append a c) ∙ ap (drop (length a)) e ∙ ap (λ n. drop n (b ++ d)) l ∙ drop-append b d,
)

length-pack : (m n : ℕ) → length (pack m) ≡ length (pack n)
unfolding pack
length-pack m n = refl

-- The lengths keep the parts apart.
length_prefixed_injective :
    (xs ys : List Bytes)
    → AllSmall xs
    → AllSmall ys
    → AreAsMany xs ys
    → length_prefixed xs ≡ length_prefixed ys
    → xs ≡ ys
unfolding length_prefixed
length_prefixed_injective [] [] s t m e = refl
length_prefixed_injective [] (y ∷ ys) s t m e = absurd m
length_prefixed_injective (x ∷ xs) [] s t m e = absurd m
length_prefixed_injective (x ∷ xs) (y ∷ ys) s t m e =
    let (same, behind) =
      same_heads (pack (length x)) (pack (length y)) _ _ (length-pack (length x) (length y)) e in
    let as_long = sym (unpack-pack (length x) s.0) ∙ ap unpack same ∙ unpack-pack (length y) t.0 in
    let (head, tail) = same_heads x y _ _ as_long behind in
    ap (λ z. z ∷ xs) head ∙ ap (λ zs. y ∷ zs) (length_prefixed_injective xs ys s.1 t.1 m tail)

abbrev first_of : Bytes → List Bytes → Bytes
first_of b [] = b
first_of b (x ∷ xs) = x

abbrev rest_of : List Bytes → List Bytes
rest_of [] = []
rest_of (x ∷ xs) = xs

same_first : (x y : Bytes) (xs ys : List Bytes) → x ∷ xs ≡ y ∷ ys → x ≡ y
same_first x y xs ys e = ap (first_of x) e

same_rest : (x y : Bytes) (xs ys : List Bytes) → x ∷ xs ≡ y ∷ ys → xs ≡ ys
same_rest x y xs ys e = ap rest_of e

same_protocol : (p q : Protocol) → protocol_name p ≡ protocol_name q → p ≡ q
same_protocol hybrid hybrid e = refl
same_protocol ecdh_only ecdh_only e = refl
same_protocol hybrid ecdh_only e = ground (arith, e)
same_protocol ecdh_only hybrid e = ground (arith, e)

-- Secrets, keys and ciphertexts of less than 4 GiB
pub record IsSmall (s : Secrets) : Type 0 where
  pub small_ikm : AllSmall (protocol_name s.protocol ∷ s.ecdh_secret ∷ s.mlkem_secret ∷ [])
  pub small_info : AllSmall (
      transcript_label ∷ s.ecdh_public ∷ s.client_public ∷ s.mlkem_public ∷ s.mlkem_ciphertext ∷ [])

-- The two inputs of the key derivation bind everything that the exchange has agreed on: exchanges with the
-- same inputs have the same protocol, public keys, ciphertext and secrets, so that none of them can be
-- replaced, or moved to another place, without another input.
pub transcript_binds :
    (s t : Secrets) → IsSmall s → IsSmall t → ikm s ≡ ikm t → info s ≡ info t → s ≡ t
transcript_binds s t hs ht e f =
    let i = length_prefixed_injective _ _ hs.small_ikm ht.small_ikm tt e in
    let n = length_prefixed_injective _ _ hs.small_info ht.small_info tt f in
    let i1 = same_rest _ _ _ _ i in
    let n1 = same_rest _ _ _ _ n in
    let n2 = same_rest _ _ _ _ n1 in
    let n3 = same_rest _ _ _ _ n2 in
    same_secrets s t (same_protocol s.protocol t.protocol (same_first _ _ _ _ i))
      (same_first _ _ _ _ n1) (same_first _ _ _ _ n2) (same_first _ _ _ _ i1)
      (same_first _ _ _ _ n3) (same_first _ _ _ _ (same_rest _ _ _ _ n3))
      (same_first _ _ _ _ (same_rest _ _ _ _ i1))
  where
    same_secrets :
        (s t : Secrets)
        → s.protocol ≡ t.protocol
        → s.ecdh_public ≡ t.ecdh_public
        → s.client_public ≡ t.client_public
        → s.ecdh_secret ≡ t.ecdh_secret
        → s.mlkem_public ≡ t.mlkem_public
        → s.mlkem_ciphertext ≡ t.mlkem_ciphertext
        → s.mlkem_secret ≡ t.mlkem_secret
        → s ≡ t
    same_secrets s t a b c d e f g = cc

-- What `_CryptoSession.encrypt` seals, `decrypt` unseals: with a nonce of 12 bytes and a cipher that undoes
-- itself and leaves no text empty.
pub decrypt-encrypt :
    (seal : (nonce text : Bytes) → Bytes) (unseal : (nonce sealed : Bytes) → Option Bytes)
    (nonce plaintext : Bytes)
    → length nonce ≡ 12
    → 0 < length (seal nonce plaintext)
    → unseal nonce (seal nonce plaintext) ≡ some plaintext
    → decrypt unseal (encrypt seal nonce plaintext) ≡ some plaintext
unfolding decrypt text_eq
decrypt-encrypt seal unseal nonce plaintext l pos h =
    let sealed = seal nonce plaintext in
    let is_nonce : take 12 (nonce ++ sealed) ≡ nonce =
      ap (λ n. take n (nonce ++ sealed)) (sym l) ∙ take-append nonce sealed in
    let is_sealed : drop 12 (nonce ++ sealed) ≡ sealed =
      ap (λ n. drop n (nonce ++ sealed)) (sym l) ∙ drop-append nonce sealed in
    let is_long : leb (length (encrypt seal nonce plaintext)) 16 ≡ false =
      ground (arith, length-append nonce sealed, l, pos) in
    rw (decrypt, is_long, is_nonce, is_sealed) h
