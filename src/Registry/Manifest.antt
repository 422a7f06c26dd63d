-- ===== src/Registry/Manifest.antt =====
-- The manifests of registry.py: which hashes each node holds.
use lan_secure_file_system.Common.{
  ℕ, Bool, true, false, ◌||◌, Option, none, some, List, [], ◌∷◌, Text, strip, lower, is_empty,
  text_eq, if◌then◌else◌,
}
use lan_secure_file_system.Registry.{Registry, write, node_at, is_healthy}

-- `_normalize`
unfoldable pub normalize : Option Text → Option Text
unfolding strip lower
normalize none = none
normalize (some sha) = if is_empty sha then none else some (lower (strip sha))

-- `norm in files`
unfoldable pub member : Text → List Text → Bool
member sha [] = false
member sha (x ∷ xs) = text_eq x sha || member sha xs

-- `files.add(norm)` and `files.discard(norm)`
unfoldable pub add_file : Text → List Text → List Text
add_file sha files = if member sha files then files else sha ∷ files

unfoldable pub discard_file : Text → List Text → List Text
discard_file sha [] = []
discard_file sha (x ∷ xs) = if text_eq x sha then discard_file sha xs else x ∷ discard_file sha xs

-- A hash that is left after `_normalize` and the test `if norm`
unfoldable pub usable : Option Text → Option Text
usable sha = elim (normalize sha) [
  | none ↦ none
  | some norm ↦ if is_empty norm then none else some norm
]

-- An update of a set by one reported hash.
abbrev pub with_usable : (Text → List Text → List Text) → Option Text → List Text → List Text
with_usable f sha files = elim (usable sha) [ none ↦ files | some norm ↦ f norm files ]

unfoldable pub add_each : List Text → List Text → List Text
add_each [] files = files
add_each (sha ∷ rest) files = add_each rest (with_usable add_file (some sha) files)

unfoldable pub discard_each : List Text → List Text → List Text
discard_each [] files = files
discard_each (sha ∷ rest) files = discard_each rest (with_usable discard_file (some sha) files)

abbrev pub set_files : Registry → ℕ → List Text → Bool → Registry
set_files r ref files received = record r {
  objects =
      write ref (record (r.objects ref) { files = files; manifest_received = received }) r.objects;
}

-- `set_manifest`, with the normalized set that it returns
unfoldable pub set_manifest : Registry → Option ℕ → List Text → Registry × Option (List Text)
set_manifest r id shas = elim (node_at r id) [
  | none ↦ (r, none)
  | some ref ↦ (set_files r ref (add_each shas []) true, some (add_each shas []))
]

-- `apply_manifest_delta`
unfoldable pub apply_manifest_delta : Registry → Option ℕ → List Text → List Text → Registry × Bool
apply_manifest_delta r id added removed = elim (node_at r id) [
  | none ↦ (r, false)
  | some ref ↦
      let node = r.objects ref in
      (
        set_files r ref (discard_each removed (add_each added node.files)) node.manifest_received,
        true,
      )
]

-- `mark_file_added`
unfoldable pub mark_file_added : Registry → Option ℕ → Option Text → Registry
mark_file_added r id sha = elim (usable sha) [
  | none ↦ r
  | some norm ↦ elim (node_at r id) [
    | none ↦ r
    | some ref ↦
        let node = r.objects ref in
        set_files r ref (add_file norm node.files) node.manifest_received
  ]
]

-- `node_has_file`: before the first manifest the database is trusted.
unfoldable pub node_has_file : Registry → ℕ → Option ℕ → Option Text → Bool
node_has_file r now id sha = elim (usable sha) [
  | none ↦ false
  | some norm ↦ elim (node_at r id) [
    | none ↦ false
    | some ref ↦
        let node = r.objects ref in
        if is_healthy r.timeout_seconds now node
        then (if node.manifest_received then member norm node.files else true)
        else false
  ]
]
