-- ===== src/Upkeep/Losses.antt =====
-- The reconciliation of the table of files with the manifest of a node.
use lan_secure_file_system.Common.{
  ℕ, ◌≡◌, refl, ◌∙◌, sym, ◌⊎◌, ◌&&◌, Option, some, List, [], ◌∷◌, Text, keep, change, true, false,
  strip, lower, is_empty, text_eq, Selects, keep-keep-Selects, Bool-cases, Option-cases, inl, inr,
  any, ◌==◌, arith,
}
use lan_secure_file_system.Registry.Manifest.{member}
use lan_secure_file_system.World.{
  is_ready, missing, File, World, Fault, Runs, bind, weaken, on_attempt, on_choose, on_maybe,
  on_pure, on_query, on_update,
}
use lan_secure_file_system.Upkeep.{reported_hashes, on_node, is_lost, mark_all, reconcile_node}

abbrev set_missing : File → File
set_missing f = record f { status = missing }

-- The files with the id of a lost one, READY ones MISSING.
abbrev marked : List File → List File → List File
marked lost fs = change (λ f. any (λ g. f.id == g.id) lost && is_ready f.status) set_missing fs

marked-none : (fs : List File) → marked [] fs ≡ fs
marked-none [] = refl
marked-none (f ∷ fs) = ground (arith, marked-none fs)

marked-step :
    (g : File) (lost fs : List File)
    → marked lost
        (change (λ f. (f.id == g.id) && is_ready f.status) (λ f. record f { status = missing }) fs)
      ≡ marked (g ∷ lost) fs
marked-step g lost [] = refl
marked-step g lost (f ∷ fs) = ground (arith, marked-step g lost fs)

mark_all-Runs :
    (lost : List File) (w : World)
    → Runs
        (mark_all lost)
        w
        (λ t q. ((q.files ≡ marked lost w.files) ⊎ Fault w) × (q.registry ≡ w.registry))
        (λ code q. ⊥)
unfolding mark_all
mark_all-Runs [] w = on_pure _ (inl (sym (marked-none w.files)), refl)
mark_all-Runs (f ∷ fs) w = bind (
    on_attempt _ _ (
      on_update _
        (λ fault.
          on_pure _ (weaken (mark_all-Runs fs _) (λ t q h. (inr fault, h.1)) (λ code q h. h)))
        (weaken (mark_all-Runs fs _)
          (λ t q h.
            (elim h.0 [ inl e ↦ inl (e ∙ marked-step f fs w.files) | inr fault ↦ inr fault ], h.1))
          (λ code q h. h))))

-- A manifest reports a hash, whatever the case and the blanks around it.
pub data Reports (sha : Text) : List Text → Type 0 where
  here :
      {s : Text} {ss : List Text}
      → is_empty s ≡ false
      → text_eq (lower (strip s)) sha ≡ true
      → Reports sha (s ∷ ss)
  there : {s : Text} {ss : List Text} → Reports sha ss → Reports sha (s ∷ ss)

-- A READY file of the node, with a hash that the manifest does not report
pub record IsLost (node : ℕ) (reported : List Text) (f : File) : Type 0 where
  pub stored_there : f.storage_node_id ≡ some node
  pub was_ready : is_ready f.status ≡ true
  pub has_hash : is_empty (lower (strip f.sha256_whole)) ≡ false
  pub unreported : ¬ Reports (lower (strip f.sha256_whole)) reported

Reports-member :
    (sha : Text) (reported : List Text)
    → Reports sha reported
    → member sha (reported_hashes reported) ≡ true
unfolding member
Reports-member sha [] r = elim r [ ]
Reports-member sha (s ∷ ss) (here e h) = ground arith
Reports-member sha (s ∷ ss) (there r) = ground (arith, Reports-member sha ss r)

member-Reports :
    (sha : Text) (reported : List Text)
    → member sha (reported_hashes reported) ≡ true
    → Reports sha reported
unfolding member
member-Reports sha [] h = ground arith
member-Reports sha (s ∷ ss) h = elim (Bool-cases (is_empty s)) [
  | inl e ↦ there (member-Reports sha ss (ground arith))
  | inr e ↦ elim (Bool-cases (text_eq (lower (strip s)) sha)) [
    | inl same ↦ here e same
    | inr other ↦ there (member-Reports sha ss (ground arith))
  ]
]

on_node-storage : (node : ℕ) (f : File) → on_node node f ≡ true → f.storage_node_id ≡ some node
on_node-storage node f h = elim (Option-cases f.storage_node_id) [
  | inl e ↦ ground arith
  | inr (k, e) ↦ let same : k ≡ node = ground arith in rw (e, same) refl
]

-- The two filters of the source leave exactly the lost files.
keep-IsLost :
    (node : ℕ) (reported : List Text) (fs : List File)
    → Selects (IsLost node reported) fs (keep (is_lost reported) (keep (on_node node) fs))
keep-IsLost node reported fs =
    keep-keep-Selects (is_lost reported) (on_node node) fs
      (λ f there_too is. record {
        stored_there = on_node-storage node f there_too;
        was_ready = ground arith;
        has_hash = ground arith;
        unreported = λ r. ground (arith, Reports-member (lower (strip f.sha256_whole)) reported r);
      })
      (λ f elsewhere l. let e = l.stored_there in ground (arith, l.was_ready))
      (λ f is_not l.
        l.unreported
          (member-Reports (lower (strip f.sha256_whole)) reported (ground (arith, l.has_hash))))

-- What a reconciliation has done.
pub data Reconciled (node : ℕ) (reported : List Text) (w q : World) (lost : List File)
    : Type 0 where
  no_node : node ≡ 0 → lost ≡ [] → q.files ≡ w.files → Reconciled node reported w q lost
  done :
      Selects (IsLost node reported) w.files lost
      → q.files ≡ marked lost w.files
      → Reconciled node reported w q lost
  not_asked : Fault w → lost ≡ [] → q.files ≡ w.files → Reconciled node reported w q lost
  in_part :
      Fault w → Selects (IsLost node reported) w.files lost → Reconciled node reported w q lost

rows_are :
    {xs : List File} (rows : List File)
    → Path (Option (List File)) (some xs) (some rows)
    → rows ≡ xs
rows_are rows h = ground arith

-- `reconcile_node` always returns. For a node with an id it tells exactly the READY files of the node whose
-- hash is not empty and, but for the case and blanks around, none of the manifest's, and marks the READY files of these ids,
-- and no others, MISSING, unless a statement failed; a query that fails marks none. The registry stays as it is.
pub reconcile_node-Runs :
    (node : ℕ) (reported : List Text) (w : World)
    → Runs
        (reconcile_node node reported)
        w
        (λ lost q. Reconciled node reported w q lost × (q.registry ≡ w.registry))
        (λ code q. ⊥)
unfolding reconcile_node
reconcile_node-Runs node reported w =
    on_choose _ _ _ (λ e. on_pure _ (no_node (ground arith) refl refl, refl))
      (λ e. bind (
        on_attempt _ _ (
          on_query _
            (λ f.
              on_pure _ (
                on_maybe _ _ _ (λ n. on_pure _ (not_asked f refl refl, refl))
                  (λ b h. ground arith)))
            (on_maybe _ _ _ (λ n. ground arith)
              (λ rows h. bind (
                weaken (mark_all-Runs (keep (is_lost reported) rows) _)
                  (λ t q m. on_pure _ (told rows h m.0, m.1)) (λ code q h. h)))))))
  where
    told :
        {q : World} (rows : List File)
        → Path (Option (List File)) (some (keep (on_node node) w.files)) (some rows)
        → (q.files ≡ marked (keep (is_lost reported) rows) w.files) ⊎ Fault w
        → Reconciled node reported w q (keep (is_lost reported) rows)
    told rows h m = elim m [
      | inl e ↦ done (rw (rows_are rows h) (keep-IsLost node reported w.files)) e
      | inr f ↦ in_part f (rw (rows_are rows h) (keep-IsLost node reported w.files))
    ]
