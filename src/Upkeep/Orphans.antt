-- ===== src/Upkeep/Orphans.antt =====
-- The cleanup of uploads that nobody finishes.
use lan_secure_file_system.Common.{
  ℕ, ◌+◌, ◌<◌, ◌≡◌, refl, ◌∙◌, true, false, not, ◌==◌, lookup, lookup-erase, inl, inr, Bool-cases,
  none, some, List, [], ◌∷◌, keep, change, any, count, if◌then◌else◌, arith,
}
use lan_secure_file_system.Registry.{Registry}
use lan_secure_file_system.Registry.Balancing.{release_slot, release_reservation}
use lan_secure_file_system.World.{
  is_uploading, deleted, File, World, Fault, Runs, bind, on_clock, on_manage, on_pure,
  on_update_returning,
}
use lan_secure_file_system.Upkeep.{
  is_orphan, set_deleted, release_all, count_files, cleanup_orphaned_uploads,
}

none_left :
    (now : ℕ) (fs : List File) → any (is_orphan now) (change (is_orphan now) set_deleted fs) ≡ false
none_left now [] = refl
none_left now (f ∷ fs) = ground (arith, none_left now fs)

count_files-keep :
    (now : ℕ) (fs : List File) → count_files (keep (is_orphan now) fs) ≡ count (is_orphan now) fs
count_files-keep now [] = refl
count_files-keep now (f ∷ fs) = ground (arith, count_files-keep now fs)

-- An upload that began more than 35 minutes ago
pub record IsOrphan (now : ℕ) (f : File) : Type 0 where
  pub unfinished : is_uploading f.status ≡ true
  pub too_old : f.created_at + 2100 < now

-- The second table is the first with the orphans DELETED.
pub data Swept (now : ℕ) : List File → List File → Type 0 where
  all_swept : Swept now [] []
  given_up :
      {f : File} {fs gs : List File}
      → IsOrphan now f
      → Swept now fs gs
      → Swept now (f ∷ fs) (record f { status = deleted } ∷ gs)
  left_alone :
      {f : File} {fs gs : List File}
      → ¬ IsOrphan now f
      → Swept now fs gs
      → Swept now (f ∷ fs) (f ∷ gs)

change-Swept : (now : ℕ) (fs : List File) → Swept now fs (change (is_orphan now) set_deleted fs)
change-Swept now [] = all_swept
change-Swept now (f ∷ fs) = elim (Bool-cases (is_orphan now f)) [
  | inl e ↦ rw e (
      given_up (record { unfinished = ground arith; too_old = ground arith }) (change-Swept now fs))
  | inr e ↦ rw e (left_alone (λ o. ground (arith, o.unfinished, o.too_old)) (change-Swept now fs))
]

reservations-release :
    (r : Registry) (id j : ℕ)
    → not (j == 0) ≡ true
    → lookup j (if id == 0 then r else (release_reservation r (some id)).0).reservations
      ≡ (if id == j then none else lookup j r.reservations)
unfolding release_reservation release_slot
reservations-release r id j h = ground (arith, lookup-erase id j r.reservations)

-- Releasing the slots of some files takes the reservations under their ids away, and no others.
reservations-release_all :
    (fs : List File) (r : Registry) (j : ℕ)
    → not (j == 0) ≡ true
    → lookup j (release_all fs r).reservations
      ≡ (if any (λ f. f.id == j) fs then none else lookup j r.reservations)
unfolding release_all
reservations-release_all [] r j h = refl
reservations-release_all (f ∷ fs) r j h =
    reservations-release_all fs (if f.id == 0 then r else (release_reservation r (some f.id)).0) j h
    ∙ ground (arith, reservations-release r f.id j h)

-- A cleanup that happened.
pub record Cleaned (w : World) (n : ℕ) (q : World) : Type 0 where
  pub counted : n ≡ count (is_orphan w.now) w.files
  pub files_after : Swept w.now w.files q.files
  pub no_orphan : any (is_orphan w.now) q.files ≡ false
  pub slots_released : q.registry ≡ (
      if w.config.has_registry
      then release_all (keep (is_orphan w.now) w.files) w.registry
      else w.registry)
  pub none_reserved :
      w.config.has_registry ≡ true
      → (id : ℕ) → not (id == 0) ≡ true
      → lookup id q.registry.reservations ≡ (
          if any (λ f. f.id == id) (keep (is_orphan w.now) w.files)
          then none
          else lookup id w.registry.reservations)

-- `cleanup_orphaned_uploads` marks exactly the UPLOADING files older than 35 minutes DELETED, leaves none of
-- them and tells their number. Where there is a registry, no reservation is left under a
-- non-empty id of theirs, and
-- those under other ids are as they were. It raises only if its statement fails, and then
-- nothing has changed.
pub cleanup_orphaned_uploads-Runs :
    (w : World)
    → Runs cleanup_orphaned_uploads w
        (λ n q. Cleaned w n q)
        (λ code q. (code ≡ none) × Fault w × (q.db ≡ w.db) × (q.registry ≡ w.registry))
unfolding cleanup_orphaned_uploads
cleanup_orphaned_uploads-Runs w = bind (
    on_clock (
      bind (
        on_update_returning _ (λ f. (refl, f, refl, refl))
          (bind (
            on_manage _ (
              on_pure _ (record {
                counted = count_files-keep w.now w.files;
                files_after = change-Swept w.now w.files;
                no_orphan = none_left w.now w.files;
                slots_released = refl;
                none_reserved = λ has id named.
                    rw has (
                      reservations-release_all (keep (is_orphan w.now) w.files) w.registry id
                        named);
              })))))))
