-- ===== src/Downloads/Tests.antt =====
-- The theorems about downloads of a shared file.
use lan_secure_file_system.Common.{refl, arith, ◌+◌, ◌≤◌, ◌≡◌, ◌⊎◌, false}
use lan_secure_file_system.World.{member, World}
use lan_secure_file_system.World.Samples.{populated}
use lan_secure_file_system.Downloads.{init_download_share, share}
use lan_secure_file_system.Downloads.Sharing.{IsKeyed}
use lan_secure_file_system.Downloads.Charges.{charge, allowed, has_token, won}
use lan_secure_file_system.Downloads.History.{
  Reach, start, next, grants, uses, IsSound, uses_stay_bounded,
}

one_token-IsKeyed : IsKeyed populated.share_tokens
one_token-IsKeyed = record { by_id = λ id. ground arith; by_token = λ token. ground arith }

-- A second token is granted, and the first one used twice.
abbrev granted : World
granted = (share 2 member 9 3 500 77 populated).1

abbrev used_twice : World
used_twice = (init_download_share 30 9 (init_download_share 30 9 granted).1).1

used_twice-Reach :
    Reach 30 populated
      (0 + 0 + won 30 30 9 granted + won 30 30 9 (init_download_share 30 9 granted).1)
      used_twice
used_twice-Reach = next (next (next start (grants 2 member 9 3 500 77)) (uses 30 9)) (uses 30 9)

uses_stay_bounded_example :
    IsSound used_twice.share_tokens
    × (charge 30 populated.share_tokens
          + (0 + 0 + won 30 30 9 granted + won 30 30 9 (init_download_share 30 9 granted).1)
        ≤ allowed 30 used_twice.share_tokens)
    × ((has_token 30 populated.share_tokens ≡ false)
        ⊎ (allowed 30 used_twice.share_tokens ≡ allowed 30 populated.share_tokens))
uses_stay_bounded_example = uses_stay_bounded used_twice-Reach (one_token-IsKeyed, refl)
