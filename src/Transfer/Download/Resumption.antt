-- ===== src/Transfer/Download/Resumption.antt =====
-- Downloads that are resumed: from a node that serves a file, and whenever the connection is lost, the parts
-- add up to that file.
use mathlib.Core.Path.{subst}
use native.Mathlib.Nat.{zero-mul, div-mul-le_self, le-div_iff_mul-le, lt-div-mul-add}
use lan_secure_file_system.Common.{
  ℕ, zero, suc, ◌+◌, ◌-◌, ◌*◌, ◌/◌, ◌≤◌, ◌<◌, ◌≡◌, refl, sym, ◌∙◌, ap, ◌⊎◌, inl, inr, false, Option,
  none, some, ◌++◌, Text, length, take, drop, length-append, take-append_le, take-append-drop,
  take_add, take_all, Bool-cases, arith,
}
use lan_secure_file_system.Frame.{Bytes}
use lan_secure_file_system.Transfer.Download.{
  Loss, Session, Opening, unreachable, dropped, open_refused, opened, Progress, good, gone, Fetched,
  got, interrupted, stopped, Partial, Attempted, complete, lost, broken, read_chunk, fetch,
  after_fetch, is_oversized, whole_chunks, kept, fetch_tail, attempt, is_unknown, or_number,
  content,
}

-- How many chunks a file has
abbrev pub count_chunks : ℕ → Bytes → ℕ
count_chunks size file = (length file + size - 1) / size

-- The chunk at an index; the last one may be short.
abbrev pub slice : ℕ → Bytes → ℕ → Bytes
slice size file index = take size (drop (index * size) file)

-- A loss that another attempt may mend
abbrev pub IsMendable : Loss → Type 0
IsMendable loss = is_unknown loss ≡ false

-- How a node that serves the file begins: it tells the numbers of the file, or nothing, or is lost.
abbrev pub Begins : ℕ → Bytes → Opening → Type 0
Begins size file (unreachable loss) = IsMendable loss
Begins size file (dropped loss) = IsMendable loss
Begins size file open_refused = ⊥
Begins size file (opened total told) =
    ((total ≡ 0) ⊎ (total ≡ count_chunks size file)) × ((told ≡ 0) ⊎ (told ≡ length file))

module _ (sha : Bytes → Text) (size : ℕ) (file : Bytes) where
  -- A connection on which a node serves the file, until it may be lost, at any chunk.
  pub record Serves (s : Session) : Type 0 where
    pub begins : Begins size file s.opening
    pub gives :
        (index : ℕ)
        → (read_chunk sha s (s.chunks index) ≡ good (slice size file index))
          ⊎ ((loss : Loss) × (read_chunk sha s (s.chunks index) ≡ gone loss) × IsMendable loss)

  -- A connection that is not lost
  pub record ServesAll (s : Session) : Type 0 where
    pub total : ℕ
    pub told : ℕ
    pub begins : s.opening ≡ opened total told
    pub gives : (index : ℕ) → read_chunk sha s (s.chunks index) ≡ good (slice size file index)

-- The beginning of the file
abbrev pub IsPrefix : Bytes → Bytes → Type 0
IsPrefix file part = (rest : Bytes) × (part ++ rest ≡ file)

prefix_take : (n : ℕ) (file : Bytes) → IsPrefix file (take n file)
prefix_take n file = (drop n file, take-append-drop n file)

abbrev FetchedFits : ℕ → Bytes → ℕ → Fetched → Type 0
FetchedFits size file end (got p) = p.part ≡ take (end * size) file
FetchedFits size file end (interrupted loss part) = IsMendable loss × IsPrefix file part
FetchedFits size file end (stopped failure part) = ⊥

pub next_slice :
    (size index : ℕ) (file : Bytes)
    → take (index * size) file ++ slice size file index ≡ take (suc index * size) file
next_slice size index file =
    sym (take_add (suc index * size) (index * size) size file (grind arith))

module _ (sha : Bytes → Text) (size : ℕ) (file : Bytes) (s : Session) where
  fetch_fits :
      (count index end : ℕ) (p : Progress)
      → Serves sha size file s
      → index + count ≡ end
      → p.part ≡ take (index * size) file
      → FetchedFits size file end (fetch sha s count index p)
  unfolding fetch
  fetch_fits zero index end p v e h = let same : index ≡ end = omega arith in rw (← same) h
  fetch_fits (suc count) index end p v e h = elim (v.gives index) [
    | inl g ↦
        rw (g, fetch)
          (fetch_fits count (suc index) end _ v (omega arith)
            (ap (λ xs. xs ++ slice size file index) h ∙ next_slice size index file))
    | inr (loss, g, m) ↦ rw (g, fetch) (m, rw h (prefix_take (index * size) file))
  ]

  abbrev pub IsGot : Fetched → Type 0
  IsGot (got p) = Unit
  IsGot (interrupted loss part) = ⊥
  IsGot (stopped failure part) = ⊥

  pub fetch_gets :
      (count index : ℕ) (p : Progress)
      → ServesAll sha size file s
      → IsGot (fetch sha s count index p)
  unfolding fetch
  fetch_gets zero index p v = tt
  fetch_gets (suc count) index p v = rw (v.gives index, fetch) (fetch_gets count (suc index) _ v)

-- The chunks of a file cover it.
pub covers : (size : ℕ) (file : Bytes) → 0 < size → length file ≤ count_chunks size file * size
covers size file pos =
    let h : length file + size - 1 < count_chunks size file * size + size = lt-div-mul-add pos in
    omega arith

-- No more whole chunks are kept than the file has.
fits_count :
    (size : ℕ) (file part : Bytes)
    → 0 < size
    → IsPrefix file part
    → (whole_chunks size part * size ≤ length file)
      × (whole_chunks size part ≤ count_chunks size file)
fits_count size file part pos (rest, e) =
    let below : whole_chunks size part * size ≤ length part = div-mul-le_self (length part) size in
    let short : length part ≤ length file = rw (← e) (omega (arith, length-append part rest)) in
    (omega arith, (le-div_iff_mul-le pos).1 (omega arith))

kept_prefix :
    (size : ℕ) (file part : Bytes)
    → IsPrefix file part
    → kept size part ≡ take (whole_chunks size part * size) file
kept_prefix size file part (rest, e) =
    sym (
      take-append_le (whole_chunks size part * size) part rest (div-mul-le_self (length part) size))
    ∙ ap (take (whole_chunks size part * size)) e

-- Between two connections `.part` is a beginning of the file, and the numbers are right.
pub record Fits (size : ℕ) (file : Bytes) (st : Partial) : Type 0 where
  pub prefix : IsPrefix file (content st.part)
  pub right_chunks : st.chunks ≡ count_chunks size file
  pub right_bytes : st.bytes ≡ length file

abbrev pub AttemptedFits : ℕ → Bytes → Attempted → Type 0
AttemptedFits size file (complete p) = p.part ≡ file
AttemptedFits size file (lost loss st) = IsMendable loss × Fits size file st
AttemptedFits size file (broken failure part) = ⊥

after_fetch-fits :
    (size : ℕ) (file : Bytes) (chunks bytes : ℕ) (f : Fetched)
    → 0 < size
    → chunks ≡ count_chunks size file
    → bytes ≡ length file
    → FetchedFits size file (count_chunks size file) f
    → AttemptedFits size file (after_fetch chunks bytes f)
after_fetch-fits size file chunks bytes (got p) pos c b h =
    h ∙ take_all (count_chunks size file * size) file (covers size file pos)
after_fetch-fits size file chunks bytes (interrupted loss part) pos c b h =
    (h.0, record { prefix = h.1; right_chunks = c; right_bytes = b })
after_fetch-fits size file chunks bytes (stopped failure part) pos c b h = absurd h

module _ (sha : Bytes → Text) (size : ℕ) (file : Bytes) (pos : 0 < size) where
  fetch_tail-fits :
      (s : Session) (part : Bytes) (chunks bytes : ℕ)
      → Serves sha size file s
      → IsPrefix file part
      → chunks ≡ count_chunks size file
      → bytes ≡ length file
      → FetchedFits size file (count_chunks size file) (fetch_tail sha s size part chunks bytes)
  unfolding fetch_tail
  fetch_tail-fits s part chunks bytes v h c b =
      let (keeps, counts) = fits_count size file part pos h in
      elim (Bool-cases (is_oversized size part chunks bytes)) [
        | inl e ↦ rw e (fetch_fits sha size file s chunks 0 _ _ v (omega arith) (rw zero-mul refl))
        | inr e ↦
            rw e (fetch_fits sha size file s _ _ _ _ v (omega arith) (kept_prefix size file part h))
      ]

  kept-Fits : (st : Partial) → Fits size file st → IsPrefix file (kept size (content st.part))
  kept-Fits st h =
      subst (IsPrefix file) (sym (kept_prefix size file (content st.part) h.prefix))
        (prefix_take (whole_chunks size (content st.part) * size) file)

  number_fits :
      (told known right : ℕ)
      → (told ≡ 0) ⊎ (told ≡ right)
      → known ≡ right
      → or_number told known ≡ right
  number_fits told known right h k = ground arith

  pub attempt-Fits :
      (s : Session) (st : Partial)
      → Serves sha size file s
      → Fits size file st
      → AttemptedFits size file (attempt sha s size st)
  unfolding attempt read_chunk
  attempt-Fits s st v h = from s.opening v.begins
    where
      closed :
          (part : Option Bytes)
          → IsPrefix file (content part)
          → Fits size file (record st { part = part })
      closed part p = record {
        prefix = p;
        right_chunks = h.right_chunks;
        right_bytes = h.right_bytes;
      }

      cut_back :
          (part : Option Bytes)
          → IsPrefix file (content part)
          → IsPrefix file (
              content (elim part as (λ _. Option Bytes) [
                | none ↦ none
                | some bytes ↦ some (kept size bytes)
              ]))
      cut_back none p = p
      cut_back (some bytes) p = kept-Fits (record st { part = some bytes }) (closed (some bytes) p)

      from :
          (o : Opening)
          → Begins size file o
          → AttemptedFits size file (attempt sha (record s { opening = o }) size st)
      from (unreachable loss) m = (m, closed _ (cut_back st.part h.prefix))
      from (dropped loss) m = (m, closed _ (kept-Fits st h))
      from open_refused m = absurd m
      from (opened total told) (t, b) =
          let right_total = number_fits total st.chunks (count_chunks size file) t h.right_chunks in
          let right_told = number_fits told st.bytes (length file) b h.right_bytes in
          after_fetch-fits size file _ _ _ pos right_total right_told (
            fetch_tail-fits (record s { opening = opened total told }) (content st.part) _ _
              (record { begins = (t, b); gives = v.gives }) h.prefix right_total right_told)
