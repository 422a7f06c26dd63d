-- ===== src/Uploads/Lookups.antt =====
-- What the lookups before an upload find: duplicates in the room, stored objects to share, the version.
use lan_secure_file_system.Common.{
  ℕ, suc, zero, ◌≡◌, refl, ◌⊎◌, inl, inr, Bool, true, not, ◌&&◌, Option, none, some, List, [], ◌∷◌,
  Text, text_eq, first, keep, take, sort, place, leb, ◌==◌, arith,
}
use lan_secure_file_system.Registry.{Address, has_address}
use lan_secure_file_system.World.{
  is_ready, File, World, ErrorCode, Fault, Runs, tick, bind, on_attempt, on_pure, on_query,
}
use lan_secure_file_system.Files.{max_version, version_after}
use lan_secure_file_system.Uploads.{
  room_duplicates, same_content, find_same_room_duplicate, find_deduplication_candidates,
  next_version, dedup_storage_address, pick_reusable_dedup, is_reusable_dedup_node,
}

abbrev pub all : (File → Bool) → List File → Bool
all p [] = true
all p (f ∷ fs) = p f && all p fs

all-keep : (p : File → Bool) (fs : List File) → all p (keep p fs) ≡ true
all-keep p [] = refl
all-keep p (f ∷ fs) = ground (arith, all-keep p fs)

all-take : (p : File → Bool) (n : ℕ) (fs : List File) → all p fs ≡ true → all p (take n fs) ≡ true
all-take p zero fs h = refl
all-take p (suc n) [] h = refl
all-take p (suc n) (f ∷ fs) h = ground (arith, all-take p n fs)

all-place :
    (p : File → Bool) (le : File → File → Bool) (f : File) (fs : List File)
    → p f ≡ true
    → all p fs ≡ true
    → all p (place le f fs) ≡ true
all-place p le f [] h k = ground arith
all-place p le f (g ∷ gs) h k = ground (arith, all-place p le f gs)

all-sort :
    (p : File → Bool) (le : File → File → Bool) (fs : List File)
    → all p fs ≡ true
    → all p (sort le fs) ≡ true
all-sort p le [] h = refl
all-sort p le (f ∷ fs) h =
    all-place p le f (sort le fs) (ground arith) (all-sort p le fs (ground arith))

-- The object that is shared satisfies what all candidates do, and its node is usable.
pub pick_reusable_dedup-all :
    (p : File → Bool) (w : World) (cs : List File) (address : Option Address) (f : File)
    (resolved : Option Address)
    → all p cs ≡ true
    → pick_reusable_dedup w cs address ≡ some (f, resolved)
    → (p f ≡ true)
      × (is_reusable_dedup_node w f.storage_node_id f.sha256_whole ≡ true)
      × (has_address resolved ≡ true)
unfolding pick_reusable_dedup
pick_reusable_dedup-all p w [] address f resolved h e = ground arith
pick_reusable_dedup-all p w (c ∷ cs) address f resolved h e =
    ground (arith, pick_reusable_dedup-all p w cs address f resolved)

-- A candidate whose object cannot be shared
abbrev pub is_unusable : World → Option Address → File → Bool
is_unusable w address c = not (
    is_reusable_dedup_node w c.storage_node_id c.sha256_whole
    && has_address (dedup_storage_address w c.storage_node_id address))

-- Where no object is shared, no candidate can be.
pub pick_reusable_dedup-none :
    (w : World) (cs : List File) (address : Option Address)
    → pick_reusable_dedup w cs address ≡ none
    → all (is_unusable w address) cs ≡ true
unfolding pick_reusable_dedup
pick_reusable_dedup-none w [] address h = refl
pick_reusable_dedup-none w (c ∷ cs) address h =
    ground (arith, pick_reusable_dedup-none w cs address)

first-place :
    (le : File → File → Bool) (f : File) (fs : List File) → ¬ (first (place le f fs) ≡ none)
first-place le f [] h = ground arith
first-place le f (g ∷ gs) h = ground arith

pub first-sort-none :
    (le : File → File → Bool) (fs : List File) → first (sort le fs) ≡ none → fs ≡ []
first-sort-none le [] h = refl
first-sort-none le (f ∷ fs) h = absurd (first-place le f (sort le fs) h)

-- The oldest READY files with a content, of which an upload may share the object
abbrev pub oldest_twenty : Text → World → List File
oldest_twenty sha w = take 20 (sort (λ f g. leb f.created_at g.created_at) (same_content sha w.db))

module _ (room : ℕ) (sha : Text) (w : World) {bad : Option ErrorCode → World → Type 0} where
  pub on_find_same_room_duplicate :
      {good : Option File → World → Type 0}
      → ((o : Option File)
          → (o
              ≡ first (sort (λ f g. leb g.created_at f.created_at) (room_duplicates room sha w.db)))
            ⊎ (Fault w × (o ≡ none))
          → good o (tick w))
      → Runs (find_same_room_duplicate room sha) w good bad
  unfolding find_same_room_duplicate
  on_find_same_room_duplicate k =
      on_attempt _ _ (on_query _ (λ f. on_pure _ (k _ (inr (f, refl)))) (k _ (inl refl)))

  pub on_find_deduplication_candidates :
      {good : List File → World → Type 0}
      → ((cs : List File)
          → all (λ f. text_eq f.sha256_whole sha && is_ready f.status) cs ≡ true
          → (cs ≡ oldest_twenty sha w) ⊎ (Fault w × (cs ≡ []))
          → good cs (tick w))
      → Runs (find_deduplication_candidates sha) w good bad
  unfolding find_deduplication_candidates
  on_find_deduplication_candidates k = on_attempt _ _ (
      on_query _ (λ f. on_pure _ (k [] refl (inr (f, refl))))
        (k _
          (all-take _ 20 (sort (λ f g. leb f.created_at g.created_at) (same_content sha w.db))
            (all-sort _ _ (same_content sha w.db) (all-keep _ w.files)))
          (inl refl)))

pub on_next_version :
    (room name : ℕ) (w : World) {good : ℕ → World → Type 0}
    {bad : Option ErrorCode → World → Type 0}
    → ((v : ℕ)
        → (v
            ≡ version_after (
                max_version (keep (λ f. (f.room_id == room) && (f.original_name == name)) w.files)))
          ⊎ (Fault w × (v ≡ 1))
        → good v (tick w))
    → Runs (next_version room name) w good bad
unfolding next_version
on_next_version room name w k =
    on_attempt _ _
      (bind (on_query _ (λ f. on_pure _ (k _ (inr (f, refl)))) (on_pure _ (k _ (inl refl)))))
