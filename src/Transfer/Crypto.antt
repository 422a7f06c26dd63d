-- ===== src/Transfer/Crypto.antt =====
-- The encryption of coordinator-node/network/storage_node_data_plane.py: `_length_prefixed`, `_CryptoSession`
-- and `_negotiate_crypto`. The libraries' cryptography is a parameter: the key agreement on P-256, ML-KEM-768,
-- SHA-256, HKDF and AES-GCM. A connection that is lost during the exchange is not seen here.
pub mod Transcript
mod Tests
use lan_secure_file_system.Common.{
  ℕ, ◌+◌, Bool, true, false, not, ◌&&◌, ◌||◌, Option, none, some, List, [], ◌∷◌, ◌++◌, Text,
  is_empty, text_eq, length, take, drop, leb, if◌then◌else◌,
}
use lan_secure_file_system.Frame.{Bytes, pack}

unfoldable pub length_prefixed : List Bytes → Bytes
length_prefixed [] = []
length_prefixed (part ∷ parts) = pack (length part) ++ (part ++ length_prefixed parts)

-- `_GCM_MAGIC`, and `_GCM_NONCE_SIZE`
abbrev pub gcm_magic : Bytes
gcm_magic = 71 ∷ 67 ∷ 77 ∷ 49 ∷ []

abbrev pub gcm_nonce_size : ℕ
gcm_nonce_size = 12

-- `_CryptoSession.encrypt`, with the nonce that it draws
abbrev pub encrypt : (seal : (nonce text : Bytes) → Bytes) → (nonce plaintext : Bytes) → Bytes
encrypt seal nonce plaintext = gcm_magic ++ (nonce ++ seal nonce plaintext)

-- `_CryptoSession.decrypt`; `none` is an exception.
unfoldable pub decrypt :
    (unseal : (nonce sealed : Bytes) → Option Bytes) → (payload : Bytes) → Option Bytes
decrypt unseal payload =
    if not (text_eq (take 4 payload) gcm_magic) || leb (length payload) (4 + gcm_nonce_size)
    then none
    else unseal (take gcm_nonce_size (drop 4 payload)) (drop (4 + gcm_nonce_size) payload)

-- `_HYBRID_PROTOCOL` and `_ECDH_PROTOCOL`
pub data Protocol : Type 0 where
  hybrid ecdh_only : Protocol

-- The texts HYBRID-ECDH-P256-ML-KEM-768 and ECDH-P256-HKDF-SHA256
abbrev pub protocol_name : Protocol → Bytes
protocol_name hybrid =
    72 ∷ 89 ∷ 66 ∷ 82 ∷ 73 ∷ 68 ∷ 45 ∷ 69 ∷ 67 ∷ 68 ∷ 72 ∷ 45 ∷ 80 ∷ 50 ∷ 53 ∷ 54 ∷ 45 ∷ 77 ∷ 76
    ∷ 45 ∷ 75 ∷ 69 ∷ 77 ∷ 45 ∷ 55 ∷ 54 ∷ 56 ∷ []
protocol_name ecdh_only =
    69 ∷ 67 ∷ 68 ∷ 72 ∷ 45 ∷ 80 ∷ 50 ∷ 53 ∷ 54 ∷ 45 ∷ 72 ∷ 75 ∷ 68 ∷ 70 ∷ 45 ∷ 83 ∷ 72 ∷ 65 ∷ 50
    ∷ 53 ∷ 54 ∷ []

-- `_TRANSCRIPT_LABEL`
abbrev pub transcript_label : Bytes
transcript_label =
    76 ∷ 84 ∷ 77 ∷ 45 ∷ 68 ∷ 65 ∷ 84 ∷ 65 ∷ 45 ∷ 80 ∷ 76 ∷ 65 ∷ 78 ∷ 69 ∷ 45 ∷ 86 ∷ 50 ∷ []

-- What the libraries do: `none` where they raise, or where ML-KEM is not installed.
pub record Library : Type 0 where
  pub agree : (server_public : Bytes) → Option (Bytes × Bytes)
  pub encapsulate : Option ((server_public : Bytes) → Option (Bytes × Bytes))
  pub sha256 : Bytes → Bytes
  pub hkdf : (salt ikm info : Bytes) → Bytes
  pub client_nonce : Bytes

-- The answer to GET_HYBRID_PUBLIC_KEY
pub data Offer : Type 0 where
  no_offer : Offer
  offer : (is_gcm : Bool) (ecdh_public server_nonce mlkem_public : Bytes) → Offer

-- ECDH_INIT or HYBRID_INIT
pub record Init : Type 0 where
  pub protocol : Protocol
  pub client_public : Bytes
  pub client_nonce : Bytes
  pub mlkem_ciphertext : Bytes

pub data Confirmation : Type 0 where
  not_confirmed : Confirmation
  confirmation : (is_gcm post_quantum : Bool) → Confirmation

-- What goes into the key
pub record Secrets : Type 0 where
  pub protocol : Protocol
  pub ecdh_public : Bytes
  pub client_public : Bytes
  pub ecdh_secret : Bytes
  pub mlkem_public : Bytes
  pub mlkem_ciphertext : Bytes
  pub mlkem_secret : Bytes

pub record CryptoSession : Type 0 where
  pub key : Bytes
  pub algorithm : Protocol
  pub post_quantum : Bool

abbrev pub ikm : Secrets → Bytes
ikm s = length_prefixed (protocol_name s.protocol ∷ s.ecdh_secret ∷ s.mlkem_secret ∷ [])

abbrev pub info : Secrets → Bytes
info s =
    length_prefixed (
      transcript_label ∷ s.ecdh_public ∷ s.client_public ∷ s.mlkem_public ∷ s.mlkem_ciphertext ∷ [])

abbrev pub derive : Library → (server_nonce : Bytes) → Secrets → Bytes
derive lib server_nonce s =
    lib.hkdf (lib.sha256 (server_nonce ++ lib.client_nonce)) (ikm s) (info s)

-- ML-KEM, where it is installed, offered and works
abbrev pub kem : Library → (mlkem_public : Bytes) → Option (Bytes × Bytes)
kem lib mlkem_public = elim lib.encapsulate [
  | none ↦ none
  | some f ↦ if is_empty mlkem_public then none else f mlkem_public
]

abbrev pub secrets_with :
    (ecdh_public client_public ecdh_secret mlkem_public : Bytes) → Option (Bytes × Bytes) → Secrets
secrets_with ecdh_public client_public ecdh_secret mlkem_public none = record {
  protocol = ecdh_only;
  ecdh_public = ecdh_public;
  client_public = client_public;
  ecdh_secret = ecdh_secret;
  mlkem_public = mlkem_public;
  mlkem_ciphertext = [];
  mlkem_secret = [];
}
secrets_with ecdh_public client_public ecdh_secret mlkem_public (some (ciphertext, secret)) =
    record {
      protocol = hybrid;
      ecdh_public = ecdh_public;
      client_public = client_public;
      ecdh_secret = ecdh_secret;
      mlkem_public = mlkem_public;
      mlkem_ciphertext = ciphertext;
      mlkem_secret = secret;
    }

abbrev pub is_hybrid : Protocol → Bool
is_hybrid hybrid = true
is_hybrid ecdh_only = false

-- The end of the exchange
abbrev pub confirm :
    Library → (server_nonce : Bytes) → Secrets → Confirmation → Option CryptoSession
confirm lib server_nonce s not_confirmed = none
confirm lib server_nonce s (confirmation is_gcm post_quantum) =
    if is_gcm
    then some (record {
      key = derive lib server_nonce s;
      algorithm = s.protocol;
      post_quantum = post_quantum && is_hybrid s.protocol;
    })
    else none

abbrev pub init : Library → Secrets → Init
init lib s = record {
  protocol = s.protocol;
  client_public = s.client_public;
  client_nonce = lib.client_nonce;
  mlkem_ciphertext = s.mlkem_ciphertext;
}

-- `_negotiate_crypto`, with a node that confirms as `answers` says; `none` is an error.
unfoldable pub negotiate : Library → Offer → (answers : Init → Confirmation) → Option CryptoSession
negotiate lib no_offer answers = none
negotiate lib (offer is_gcm ecdh_public server_nonce mlkem_public) answers =
    if not is_gcm || is_empty ecdh_public then none else elim (lib.agree ecdh_public) [
      | none ↦ none
      | some agreed ↦
          let s = secrets_with ecdh_public agreed.0 agreed.1 mlkem_public (kem lib mlkem_public) in
          confirm lib server_nonce s (answers (init lib s))
    ]
