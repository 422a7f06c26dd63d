-- ===== src/Transfer/Download/Integrity.antt =====
-- What a finished download holds: the hash that was promised is the hash of what is in the target file,
-- whatever the storage node sends and however often the connection is lost.
use mathlib.Core.Path.{subst}
use lan_secure_file_system.Common.{
  ℕ, zero, suc, ◌≡◌, refl, ap, ◌⊎◌, inl, inr, true, false, Option, ◌++◌, Text, is_empty, text_eq,
  Bool-cases, arith,
}
use lan_secure_file_system.Frame.{Bytes}
use lan_secure_file_system.Transfer.Download.{
  Loss, Session, Opening, unreachable, dropped, open_refused, opened, Failure, DownloadPlan,
  Progress, Chunk, good, gone, bad, Fetched, got, interrupted, stopped, Partial, Attempted,
  complete, lost, broken, Ending, finished, failed, Disk, read_chunk, fetch, after_fetch,
  is_oversized, fetch_tail, attempt, finish, is_unknown, run, download_file, chunk_size_of,
}

pub Chunk-cases :
    (c : Chunk)
    → ((b : Bytes) × (c ≡ good b)) ⊎ (((l : Loss) × (c ≡ gone l)) ⊎ ((f : Failure) × (c ≡ bad f)))
Chunk-cases (good b) = inl (b, refl)
Chunk-cases (gone l) = inr (inl (l, refl))
Chunk-cases (bad f) = inr (inr (f, refl))

-- The hasher was fed what the file holds.
abbrev pub InStep : Progress → Type 0
InStep p = p.hashed ≡ p.part

abbrev FetchedInStep : Fetched → Type 0
FetchedInStep (got p) = InStep p
FetchedInStep (interrupted loss part) = Unit
FetchedInStep (stopped failure part) = Unit

module _ (sha : Bytes → Text) where
  fetch-InStep :
      (s : Session) (count index : ℕ) (p : Progress)
      → InStep p
      → FetchedInStep (fetch sha s count index p)
  unfolding fetch
  fetch-InStep s zero index p h = h
  fetch-InStep s (suc count) index p h = elim (Chunk-cases (read_chunk sha s (s.chunks index))) [
    | inl (b, e) ↦ rw (e, fetch) (fetch-InStep s count (suc index) _ (ap (λ xs. xs ++ b) h))
    | inr (inl (l, e)) ↦ rw (e, fetch) tt
    | inr (inr (f, e)) ↦ rw (e, fetch) tt
  ]

-- What is left of an attempt is right, if it is complete.
abbrev pub AttemptedInStep : Attempted → Type 0
AttemptedInStep (complete p) = InStep p
AttemptedInStep (lost loss st) = Unit
AttemptedInStep (broken failure part) = Unit

after_fetch-InStep :
    (chunks bytes : ℕ) (f : Fetched)
    → FetchedInStep f
    → AttemptedInStep (after_fetch chunks bytes f)
after_fetch-InStep chunks bytes (got p) h = h
after_fetch-InStep chunks bytes (interrupted loss part) h = tt
after_fetch-InStep chunks bytes (stopped failure part) h = tt

-- A target file with the promised hash
abbrev Promised : (Bytes → Text) → Text → Ending → Type 0
Promised sha expected (finished bytes) =
    is_empty expected ≡ false → text_eq (sha bytes) expected ≡ true
Promised sha expected (failed failure part) = Unit

pub Attempted-cases :
    (a : Attempted)
    → ((p : Progress) × (a ≡ complete p))
      ⊎ (((l : Loss) × (st : Partial) × (a ≡ lost l st))
          ⊎ ((f : Failure) × (part : Option Bytes) × (a ≡ broken f part)))
Attempted-cases (complete p) = inl (p, refl)
Attempted-cases (lost l st) = inr (inl (l, st, refl))
Attempted-cases (broken f part) = inr (inr (f, part, refl))

module _ (sha : Bytes → Text) where
  fetch_tail-InStep :
      (s : Session) (size : ℕ) (part : Bytes) (chunks bytes : ℕ)
      → FetchedInStep (fetch_tail sha s size part chunks bytes)
  unfolding fetch_tail
  fetch_tail-InStep s size part chunks bytes =
      elim (Bool-cases (is_oversized size part chunks bytes)) [
        | inl e ↦ rw e (fetch-InStep sha s chunks 0 _ refl)
        | inr e ↦ rw e (fetch-InStep sha s _ _ _ refl)
      ]

  pub attempt-InStep :
      (s : Session) (size : ℕ) (st : Partial) → AttemptedInStep (attempt sha s size st)
  unfolding attempt
  attempt-InStep s size st = from s.opening
    where
      from : (o : Opening) → AttemptedInStep (attempt sha (record s { opening = o }) size st)
      from (unreachable loss) = tt
      from (dropped loss) = tt
      from open_refused = tt
      from (opened total told) = after_fetch-InStep _ _ _ (fetch_tail-InStep _ _ _ _ _)

  finish-Promised :
      (expected : Text) (p : Progress) → InStep p → Promised sha expected (finish sha expected p)
  unfolding finish
  finish-Promised expected p h = ground arith

  run-Promised :
      (node : ℕ → Session) (plan : DownloadPlan) (attempts k : ℕ) (st : Partial)
      → Promised sha plan.sha256_whole (run sha node plan attempts k st)
  unfolding run
  run-Promised node plan zero k st = tt
  run-Promised node plan (suc attempts) k st =
      elim (Attempted-cases (attempt sha (node k) (chunk_size_of plan) st)) [
        | inl (p, e) ↦
            rw (e, run)
              (finish-Promised plan.sha256_whole p
                (subst AttemptedInStep e (attempt-InStep (node k) (chunk_size_of plan) st)))
        | inr (inl (l, st', e)) ↦ elim (Bool-cases (is_unknown l)) [
          | inl u ↦ rw (e, u, run) tt
          | inr u ↦ rw (e, u, run) (run-Promised node plan attempts (suc k) st')
        ]
        | inr (inr (f, part, e)) ↦ rw (e, run) tt
      ]

  -- Whatever the storage node sends, however often the connection is lost and whatever an earlier download
  -- left behind: a download that ends with a target file has put there content of the promised hash, if the
  -- plan promises one.
  pub download_keeps_promise :
      (node : ℕ → Session) (max_attempts : ℕ) (plan : DownloadPlan) (disk : Disk) (bytes : Bytes)
      → is_empty plan.sha256_whole ≡ false
      → download_file sha node max_attempts plan disk ≡ finished bytes
      → text_eq (sha bytes) plan.sha256_whole ≡ true
  unfolding download_file
  download_keeps_promise node max_attempts plan disk bytes h e =
      subst (Promised sha plan.sha256_whole) e (run-Promised node plan _ 0 _) h
