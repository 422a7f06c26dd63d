-- ===== src/Transfer/Download/Success.antt =====
-- How a download ends that a node serves: with the whole file, or with a beginning of it to go on from.
use mathlib.Core.Path.{subst}
use native.Mathlib.Nat.{add-zero, zero-add}
use lan_secure_file_system.Common.{
  ℕ, zero, suc, ◌+◌, ◌<◌, ◌≡◌, refl, sym, inl, inr, false, not, ◌&&◌, Text, is_empty, text_eq,
  length, Bool-cases, arith,
}
use lan_secure_file_system.Frame.{Bytes}
use lan_secure_file_system.Transfer.Download.{
  Session, gave_up, DownloadPlan, Progress, Fetched, got, interrupted, stopped, Partial, Attempted,
  complete, lost, broken, Ending, finished, failed, Disk, after_fetch, is_oversized, fetch_tail,
  attempt, finish, run, download_file, chunk_size_of, prior_part, or_number, content,
}
use lan_secure_file_system.Transfer.Download.Integrity.{
  Attempted-cases, InStep, AttemptedInStep, attempt-InStep,
}
use lan_secure_file_system.Transfer.Download.Resumption.{
  IsPrefix, Serves, ServesAll, Fits, AttemptedFits, attempt-Fits, count_chunks, IsGot, fetch_gets,
}

-- The hash of the file is the promised one, if the plan promises one.
abbrev pub Matches : (Bytes → Text) → Bytes → Text → Type 0
Matches sha file expected = not (is_empty expected) && not (text_eq (sha file) expected) ≡ false

finish_fits :
    (sha : Bytes → Text) (file : Bytes) (expected : Text) (p : Progress)
    → Matches sha file expected
    → InStep p
    → p.part ≡ file
    → finish sha expected p ≡ finished file
unfolding finish
finish_fits sha file expected p m i e = rw (i, e, m) refl

-- The whole file, or a beginning that another download goes on from
abbrev pub WholeOrBegun : Bytes → Ending → Type 0
WholeOrBegun file (finished bytes) = bytes ≡ file
WholeOrBegun file (failed failure part) = (failure ≡ gave_up) × IsPrefix file (content part)

-- An attempt that is not lost
abbrev IsComplete : Attempted → Type 0
IsComplete (complete p) = Unit
IsComplete (lost loss st) = ⊥
IsComplete (broken failure part) = ⊥

completes :
    (sha : Bytes → Text) (size : ℕ) (file : Bytes) (s : Session) (chunks bytes : ℕ) (f : Fetched)
    → IsGot sha size file s f
    → IsComplete (after_fetch chunks bytes f)
completes sha size file s chunks bytes (got p) h = tt
completes sha size file s chunks bytes (interrupted loss part) h = absurd h
completes sha size file s chunks bytes (stopped failure part) h = absurd h

attempt-completes :
    (sha : Bytes → Text) (size : ℕ) (file : Bytes) (s : Session) (st : Partial)
    → ServesAll sha size file s
    → IsComplete (attempt sha s size st)
unfolding attempt fetch_tail
attempt-completes sha size file s st v =
    rw (v.begins, attempt)
      (completes sha size file s _ _ _
        (elim (Bool-cases (
          is_oversized size (content st.part) (or_number v.total st.chunks)
            (or_number v.told st.bytes))) [
              | inl e ↦ rw e (fetch_gets sha size file s _ _ _ v)
              | inr e ↦ rw e (fetch_gets sha size file s _ _ _ v)
            ]))

module _ (sha : Bytes → Text) (file : Bytes) (plan : DownloadPlan) (node : ℕ → Session) where
  abbrev AllServe : Type 0
  AllServe = (k : ℕ) → Serves sha (chunk_size_of plan) file (node k)

  module _ (serves : AllServe) (matches : Matches sha file plan.sha256_whole) where
    has_size : 0 < chunk_size_of plan
    has_size = ground arith

    Fits-at :
        (k : ℕ) (st : Partial)
        → Fits (chunk_size_of plan) file st
        → AttemptedFits (chunk_size_of plan) file (attempt sha (node k) (chunk_size_of plan) st)
    Fits-at k st h = attempt-Fits sha (chunk_size_of plan) file has_size (node k) st (serves k) h

    finishes_at :
        (k : ℕ) (st : Partial) (p : Progress)
        → Fits (chunk_size_of plan) file st
        → attempt sha (node k) (chunk_size_of plan) st ≡ complete p
        → finish sha plan.sha256_whole p ≡ finished file
    finishes_at k st p h e =
        finish_fits sha file plan.sha256_whole p matches
          (subst AttemptedInStep e (attempt-InStep sha (node k) (chunk_size_of plan) st))
          (subst (AttemptedFits (chunk_size_of plan) file) e (Fits-at k st h))

    run-Fits :
        (attempts k : ℕ) (st : Partial)
        → Fits (chunk_size_of plan) file st
        → WholeOrBegun file (run sha node plan attempts k st)
    unfolding run
    run-Fits zero k st h = (refl, h.prefix)
    run-Fits (suc attempts) k st h =
        elim (Attempted-cases (attempt sha (node k) (chunk_size_of plan) st)) [
          | inl (p, e) ↦ rw (e, run, finishes_at k st p h e) refl
          | inr (inl (l, st', e)) ↦
              let (mendable, fits') =
                subst (AttemptedFits (chunk_size_of plan) file) e (Fits-at k st h) in
              rw (e, mendable, run) (run-Fits attempts (suc k) st' fits')
          | inr (inr (f, part, e)) ↦
              absurd (subst (AttemptedFits (chunk_size_of plan) file) e (Fits-at k st h))
        ]

    run_completes :
        (attempts k j : ℕ) (st : Partial)
        → Fits (chunk_size_of plan) file st
        → j < attempts
        → ServesAll sha (chunk_size_of plan) file (node (k + j))
        → run sha node plan attempts k st ≡ finished file
    unfolding run
    run_completes zero k j st h lt v = absurd (omega arith)
    run_completes (suc attempts) k zero st h lt v =
        let here = subst (λ n. ServesAll sha (chunk_size_of plan) file (node n)) (add-zero k) v in
        let whole = attempt-completes sha (chunk_size_of plan) file (node k) st here in
        elim (Attempted-cases (attempt sha (node k) (chunk_size_of plan) st)) [
          | inl (p, e) ↦ rw (e, run) (finishes_at k st p h e)
          | inr (inl (l, st', e)) ↦ absurd (subst IsComplete e whole)
          | inr (inr (f, part, e)) ↦ absurd (subst IsComplete e whole)
        ]
    run_completes (suc attempts) k (suc j) st h lt v =
        let same : k + suc j ≡ suc k + j = omega arith in
        let there = subst (λ n. ServesAll sha (chunk_size_of plan) file (node n)) same v in
        elim (Attempted-cases (attempt sha (node k) (chunk_size_of plan) st)) [
          | inl (p, e) ↦ rw (e, run) (finishes_at k st p h e)
          | inr (inl (l, st', e)) ↦
              let (mendable, fits') =
                subst (AttemptedFits (chunk_size_of plan) file) e (Fits-at k st h) in
              rw (e, mendable, run) (run_completes attempts (suc k) j st' fits' (omega arith) there)
          | inr (inr (f, part, e)) ↦
              absurd (subst (AttemptedFits (chunk_size_of plan) file) e (Fits-at k st h))
        ]

    -- A download from a node that serves the file, however its connections are lost: with the right numbers
    -- and hash in the plan, and a beginning of the file or nothing left from before, it puts exactly the file
    -- into the target, or gives up after its attempts with `.part` still a beginning of the file.
    pub download_resumes :
        (max_attempts : ℕ) (disk : Disk)
        → plan.total_chunks ≡ count_chunks (chunk_size_of plan) file
        → plan.size_bytes ≡ length file
        → IsPrefix file (content (prior_part plan disk))
        → WholeOrBegun file (download_file sha node max_attempts plan disk)
    unfolding download_file
    download_resumes max_attempts disk c b p =
        run-Fits _ 0 _ (record { prefix = p; right_chunks = c; right_bytes = b })

    -- Such a download succeeds if one of its attempts is on a connection that is not lost: then the file is in
    -- the target.
    pub download_succeeds :
        (max_attempts j : ℕ) (disk : Disk)
        → plan.total_chunks ≡ count_chunks (chunk_size_of plan) file
        → plan.size_bytes ≡ length file
        → IsPrefix file (content (prior_part plan disk))
        → j < max_attempts
        → ServesAll sha (chunk_size_of plan) file (node j)
        → download_file sha node max_attempts plan disk ≡ finished file
    unfolding download_file
    download_succeeds max_attempts j disk c b p lt v =
        run_completes _ 0 j _ (record { prefix = p; right_chunks = c; right_bytes = b })
          (ground arith)
          (subst (λ n. ServesAll sha (chunk_size_of plan) file (node n)) (sym (zero-add j)) v)
