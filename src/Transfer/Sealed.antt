-- ===== src/Transfer/Sealed.antt =====
-- Chunks under the cipher of a connection: what a storage node seals is what `download_file` reads.
use lan_secure_file_system.Common.{◌<◌, ◌≡◌, refl, ◌∙◌, Option, some, Text, length, text_eq_iff}
use lan_secure_file_system.Frame.{Bytes}
use lan_secure_file_system.Transfer.Download.{Session, chunk, good, check_chunk, read_chunk}
use lan_secure_file_system.Transfer.Crypto.{encrypt, decrypt}
use lan_secure_file_system.Transfer.Crypto.Transcript.{decrypt-encrypt}

-- A chunk that was sealed with the cipher of the connection, under its hash, is read as it was, so that the
-- connections of a node that seals its chunks serve the file.
read_chunk-encrypt :
    (sha : Bytes → Text) (seal : (nonce text : Bytes) → Bytes)
    (unseal : (nonce sealed : Bytes) → Option Bytes) (s : Session) (nonce bytes : Bytes)
    → ((payload : Bytes) → s.decrypt payload ≡ decrypt unseal payload)
    → length nonce ≡ 12
    → 0 < length (seal nonce bytes)
    → unseal nonce (seal nonce bytes) ≡ some bytes
    → read_chunk sha s (chunk (encrypt seal nonce bytes) (sha bytes)) ≡ good bytes
unfolding read_chunk check_chunk
read_chunk-encrypt sha seal unseal s nonce bytes same l pos h =
    let unsealed : s.decrypt (encrypt seal nonce bytes) ≡ some bytes =
      same (encrypt seal nonce bytes) ∙ decrypt-encrypt seal unseal nonce bytes l pos h in
    rw (read_chunk, unsealed, check_chunk, (text_eq_iff (sha bytes) (sha bytes)).1 refl) refl
