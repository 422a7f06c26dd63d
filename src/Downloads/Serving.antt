-- ===== src/Downloads/Serving.antt =====
-- Where the content of a file is fetched, and that its node has it.
use lan_secure_file_system.Common.{
  ℕ, ◌+◌, ◌<◌, ◌≡◌, ◌∙◌, sym, inl, inr, true, false, ◌&&◌, Text, arith, Option-cases, Bool-cases,
  Option, some,
}
use lan_secure_file_system.Registry.{
  Address, Registry, node_at, get_node, get_storage_address, has_address, is_healthy,
}
use lan_secure_file_system.Registry.Manifest.{usable, member, node_has_file}
use lan_secure_file_system.World.{File, World}
use lan_secure_file_system.Uploads.{is_named}
use lan_secure_file_system.Downloads.{resolved, resolve_storage_node}

-- Where the content of a file is fetched: a file without a node, or any file where there is no registry, from
-- the default address, unchecked; another one from its node, which is registered, has authenticated, has
-- pinged within the timeout, has an address and, once it has sent a manifest, holds the hash.
pub data Served (f : File) (w : World) (address : Option Address) : Type 0 where
  by_default :
      is_named f.storage_node_id && w.config.has_registry ≡ false
      → address ≡ some w.config.storage_address
      → Served f w address
  by_node :
      (ref : ℕ) (norm : Text)
      → node_at w.registry f.storage_node_id ≡ some ref
      → (w.registry.objects ref).authenticated ≡ true
      → w.now < (w.registry.objects ref).last_ping_time + w.registry.timeout_seconds
      → address ≡ (w.registry.objects ref).storage_address
      → has_address address ≡ true
      → usable (some f.sha256_whole) ≡ some norm
      → ((w.registry.objects ref).manifest_received ≡ true
          → member norm (w.registry.objects ref).files ≡ true)
      → Served f w address

address_is :
    (r : Registry) (now : ℕ) (id : Option ℕ)
    → has_address (get_storage_address r now id) ≡ true
    → (ref : ℕ) × (node_at r id ≡ some ref)
      × ((r.objects ref).authenticated ≡ true)
      × (now < (r.objects ref).last_ping_time + r.timeout_seconds)
      × (get_storage_address r now id ≡ (r.objects ref).storage_address)
unfolding get_storage_address get_node is_healthy
address_is r now id h = elim (Option-cases (node_at r id)) [
  | inl e ↦ ground arith
  | inr (ref, e) ↦ (ref, e, ground arith, ground arith, ground arith)
]

holds_it :
    (r : Registry) (now ref : ℕ) (id : Option ℕ) (sha : Text)
    → node_at r id ≡ some ref
    → node_has_file r now id (some sha) ≡ true
    → (norm : Text) × (usable (some sha) ≡ some norm)
      × ((r.objects ref).manifest_received ≡ true → member norm (r.objects ref).files ≡ true)
unfolding node_has_file is_healthy
holds_it r now ref id sha e h = elim (Option-cases (usable (some sha))) [
  | inl n ↦ ground arith
  | inr (norm, s) ↦ (norm, s, λ m. ground arith)
]

pub resolve-Served :
    (f : File) (w : World) (address : Option Address)
    → resolve_storage_node f w ≡ resolved address
    → Served f w address
unfolding resolve_storage_node
resolve-Served f w address h =
    elim (Bool-cases (is_named f.storage_node_id && w.config.has_registry)) [
      | inr e ↦ by_default e (ground arith)
      | inl e ↦
          let given : has_address (get_storage_address w.registry w.now f.storage_node_id) ≡ true =
            ground arith in
          let holds : node_has_file w.registry w.now f.storage_node_id (some f.sha256_whole)
              ≡ true =
            ground arith in
          let same : get_storage_address w.registry w.now f.storage_node_id ≡ address =
            ground arith in
          let (ref, at, known, alive, is) = address_is w.registry w.now f.storage_node_id given in
          let (norm, u, m) =
            holds_it w.registry w.now ref f.storage_node_id f.sha256_whole at holds in
          by_node ref norm at known alive (sym same ∙ is) (rw (← same) given) u m
    ]
