-- ===== src/Transfer/Crypto/Tests.antt =====
-- A key exchange at concrete values, with ML-KEM and without it.
use lan_secure_file_system.Common.{◌≡◌, refl, true, some, [], ◌∷◌, ◌++◌, arith}
use lan_secure_file_system.Transfer.Crypto.{
  hybrid, Library, offer, Init, Confirmation, confirmation, Secrets, derive, secrets_with,
  negotiate,
}
use lan_secure_file_system.Transfer.Crypto.Transcript.{IsSmall, transcript_binds}

-- Functions that keep their arguments apart
abbrev lib : Library
lib = record {
  agree = λ public. some (1 ∷ [], 2 ∷ public);
  encapsulate = some (λ public. some (3 ∷ public, 4 ∷ []));
  sha256 = λ bytes. bytes;
  hkdf = λ salt key_material context. salt ++ (key_material ++ context);
  client_nonce = 5 ∷ [];
}

abbrev answers : Init → Confirmation
answers i = confirmation true true

abbrev agreed : Secrets
agreed = secrets_with (6 ∷ []) (1 ∷ []) (2 ∷ 6 ∷ []) (7 ∷ []) (some (3 ∷ 7 ∷ [], 4 ∷ []))

negotiated :
    negotiate lib (offer true (6 ∷ []) (8 ∷ []) (7 ∷ [])) answers
    ≡ some (record { key = derive lib (8 ∷ []) agreed; algorithm = hybrid; post_quantum = true })
unfolding negotiate
negotiated = refl

agreed-IsSmall : IsSmall agreed
agreed-IsSmall = record {
  small_ikm = (omega arith, (omega arith, (omega arith, tt)));
  small_info = (omega arith, (omega arith, (omega arith, (omega arith, (omega arith, tt)))));
}

transcript_binds_example : agreed ≡ agreed
transcript_binds_example = transcript_binds agreed agreed agreed-IsSmall agreed-IsSmall refl refl
