-- ===== src/Registry/Holdings.antt =====
-- What the registry says a node holds, after the node has said so itself.
use lan_secure_file_system.Common.{
  ℕ, ◌≡◌, refl, ◌∙◌, ap, inl, inr, Bool, true, false, ◌&&◌, ◌||◌, not, Option, none, some, List, [],
  ◌∷◌, Text, text_eq, text_eq_iff, arith, if◌then◌else◌, Option-cases,
}
use lan_secure_file_system.Registry.{Registry, node_at, is_healthy}
use lan_secure_file_system.Registry.Manifest.{
  with_usable, usable, member, add_file, discard_file, add_each, discard_each, set_files,
  set_manifest, apply_manifest_delta, mark_file_added, node_has_file,
}

-- A hash is among some reports, each read as `_normalize` reads it.
abbrev pub reported : Text → List Text → Bool
reported norm [] = false
reported norm (sha ∷ rest) = elim (usable (some sha)) [
  | none ↦ reported norm rest
  | some x ↦ text_eq x norm || reported norm rest
]

member-add_file :
    (x norm : Text) (files : List Text)
    → member norm (add_file x files) ≡ text_eq x norm || member norm files
unfolding add_file member
member-add_file x norm files = ground (arith, text_eq_iff x norm)

member-discard_file :
    (x norm : Text) (files : List Text)
    → member norm (discard_file x files) ≡ not (text_eq x norm) && member norm files
unfolding discard_file member
member-discard_file x norm [] = ground arith
member-discard_file x norm (y ∷ files) = ground (
  arith,
  member-discard_file x norm files,
  text_eq_iff x norm,
  text_eq_iff y x,
  text_eq_iff y norm,
)

pub member-add_each :
    (norm : Text) (shas files : List Text)
    → member norm (add_each shas files) ≡ reported norm shas || member norm files
unfolding add_each
member-add_each norm [] files = refl
member-add_each norm (sha ∷ rest) files = elim (Option-cases (usable (some sha))) [
  | inl e ↦ rw (e, reported, with_usable) (member-add_each norm rest files)
  | inr (x, e) ↦
      rw (e, reported, with_usable)
        (ground (arith, member-add_each norm rest (add_file x files), member-add_file x norm files))
]

member-discard_each :
    (norm : Text) (shas files : List Text)
    → member norm (discard_each shas files) ≡ not (reported norm shas) && member norm files
unfolding discard_each
member-discard_each norm [] files = refl
member-discard_each norm (sha ∷ rest) files = elim (Option-cases (usable (some sha))) [
  | inl e ↦ rw (e, reported, with_usable) (member-discard_each norm rest files)
  | inr (x, e) ↦
      rw (e, reported, with_usable)
        (ground (
          arith,
          member-discard_each norm rest (discard_file x files),
          member-discard_file x norm files,
        ))
]

node_at-set_files :
    (r : Registry) (ref : ℕ) (files : List Text) (received : Bool) (id : Option ℕ)
    → node_at (set_files r ref files received) id ≡ node_at r id
node_at-set_files r ref files received none = refl
node_at-set_files r ref files received (some k) = refl

member-nil : (norm : Text) → member norm [] ≡ false
unfolding member
member-nil norm = refl

-- The answer of `node_has_file` for a healthy node and a usable hash.
node_has_file-healthy :
    (r : Registry) (now : ℕ) (id : Option ℕ) (ref : ℕ) (sha : Option Text) (norm : Text)
    → node_at r id ≡ some ref
    → is_healthy r.timeout_seconds now (r.objects ref) ≡ true
    → usable sha ≡ some norm
    → node_has_file r now id sha
      ≡ (if (r.objects ref).manifest_received then member norm (r.objects ref).files else true)
unfolding node_has_file
node_has_file-healthy r now id ref sha norm home well e = ground arith

-- Its answer after the files of the node were written.
node_has_file-set_files :
    (r : Registry) (now : ℕ) (id : Option ℕ) (ref : ℕ) (files : List Text) (sha : Option Text)
    (norm : Text)
    → node_at r id ≡ some ref
    → is_healthy r.timeout_seconds now (r.objects ref) ≡ true
    → usable sha ≡ some norm
    → node_has_file (set_files r ref files true) now id sha ≡ member norm files
node_has_file-set_files r now id ref files sha norm home well e =
    node_has_file-healthy (set_files r ref files true) now id ref sha norm
      (node_at-set_files r ref files true id ∙ home) (unfold is_healthy in ground arith) e
    ∙ ground arith

-- After a full manifest from a healthy node, the registry says that the node has a file exactly if
-- the manifest lists its hash, up to case and surrounding space.
pub node_has_file-set_manifest :
    (r : Registry) (now : ℕ) (id : Option ℕ) (ref : ℕ) (shas : List Text) (sha : Option Text)
    (norm : Text)
    → node_at r id ≡ some ref
    → is_healthy r.timeout_seconds now (r.objects ref) ≡ true
    → usable sha ≡ some norm
    → node_has_file (set_manifest r id shas).0 now id sha ≡ reported norm shas
unfolding set_manifest
node_has_file-set_manifest r now id ref shas sha norm home well e =
    rw (home, set_manifest)
      (node_has_file-set_files r now id ref (add_each shas []) sha norm home well e
        ∙ member-add_each norm shas []
        ∙ ground (arith, member-nil norm))

-- After a delta, a healthy node whose manifest is known has a file exactly if the delta does not
-- remove its hash, and the delta adds it or the node had it before.
pub node_has_file-apply_manifest_delta :
    (r : Registry) (now : ℕ) (id : Option ℕ) (ref : ℕ) (added removed : List Text)
    (sha : Option Text) (norm : Text)
    → node_at r id ≡ some ref
    → is_healthy r.timeout_seconds now (r.objects ref) ≡ true
    → (r.objects ref).manifest_received ≡ true
    → usable sha ≡ some norm
    → node_has_file (apply_manifest_delta r id added removed).0 now id sha
      ≡ not (reported norm removed) && (reported norm added || node_has_file r now id sha)
unfolding apply_manifest_delta
node_has_file-apply_manifest_delta r now id ref added removed sha norm home well full e =
    let files = (r.objects ref).files in
    rw (home, apply_manifest_delta, full)
      (node_has_file-set_files r now id ref (discard_each removed (add_each added files)) sha norm
          home well e
        ∙ member-discard_each norm removed (add_each added files)
        ∙ ap (λ b. not (reported norm removed) && b) (member-add_each norm added files)
        ∙ ground (arith, node_has_file-healthy r now id ref sha norm home well e))

-- A file that was marked as added is among the node's, with those that were there.
pub member-mark_file_added :
    (r : Registry) (id : Option ℕ) (sha : Option Text) (norm x : Text) (ref : ℕ)
    → usable sha ≡ some norm
    → node_at r id ≡ some ref
    → member x ((mark_file_added r id sha).objects ref).files
      ≡ text_eq norm x || member x (r.objects ref).files
unfolding mark_file_added
member-mark_file_added r id sha norm x ref e home =
    ground (arith, member-add_file norm x (r.objects ref).files)
