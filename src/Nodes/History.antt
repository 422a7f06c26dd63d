-- ===== src/Nodes/History.antt =====
-- The coordinator over time: whatever its clients, its storage nodes and its own threads do, the registry
-- keeps its accounting.
use lan_secure_file_system.Common.{ℕ, ◌≤◌, ◌≡◌, ◌⊎◌, inl, inr, some, lookup, true, arith}
use lan_secure_file_system.Registry.{new_registry}
use lan_secure_file_system.Registry.Slots.{IsSound, held, new_registry-IsSound}
use lan_secure_file_system.Registry.History.{
  Reach as RegistryReach, start as here, Reach-trans, Reach-IsSound,
}
use lan_secure_file_system.Registry.Agreement.{Rejoined, Reach-IsCharged, new_registry-IsCharged}
use lan_secure_file_system.World.{World}
use lan_secure_file_system.Clients.{Request, handle_request}
use lan_secure_file_system.Clients.Moves.{Moves-handle_request}
use lan_secure_file_system.Upkeep.{cleanup_orphaned_uploads}
use lan_secure_file_system.Upkeep.Moves.{Moves-cleanup_orphaned_uploads}
use lan_secure_file_system.Nodes.{
  Peer, NodeMessage, connection_established, connection_closed, run_handler,
}
use lan_secure_file_system.Nodes.Dispatch.{
  Asks, Moves-connection_established, Moves-connection_closed, Moves-run_handler,
}

-- What may happen, in any order: storage nodes connect, send messages and go, each authenticating once on a
-- connection; clients send requests; the cleanup runs; and other work, which leaves the registry alone.
pub data Step (w : World) : World → Type 0 where
  connects : (peer : Peer) → Step w (connection_established peer w).1
  goes : (peer : Peer) → Step w (connection_closed peer w).1
  sends : (peer : Peer) (m : NodeMessage) → Asks peer m w.registry → Step w (run_handler peer m w).1
  requests : (r : Request) → Step w (handle_request r w).1
  cleans : Step w (cleanup_orphaned_uploads w).1
  elapses : {q : World} → q.registry ≡ w.registry → Step w q

pub data Reach (w : World) : World → Type 0 where
  start : Reach w w
  next : {p q : World} → Reach w p → Step p q → Reach w q

-- What happens to the registry is a sequence of its own steps.
Step-follows : {w q : World} → Step w q → RegistryReach w.registry q.registry
Step-follows {w} (connects peer) = (Moves-connection_established peer).follows w tt
Step-follows {w} (goes peer) = (Moves-connection_closed peer).follows w tt
Step-follows {w} (sends peer m a) = (Moves-run_handler peer m).follows w a
Step-follows {w} (requests r) = (Moves-handle_request r).follows w tt
Step-follows {w} cleans = Moves-cleanup_orphaned_uploads.follows w tt
Step-follows {w} (elapses e) = rw e here

history-follows : {w q : World} → Reach w q → RegistryReach w.registry q.registry
history-follows start = here
history-follows (next r s) = Reach-trans (history-follows r) (Step-follows s)

-- Whatever storage nodes, clients and the cleanup have done since the coordinator started with an empty
-- registry, where each connection authenticated once, and whichever calls failed: an id leads to an
-- authenticated node of that id, and this node is charged for no more uploads than there are reservations
-- on the id, and for exactly as many, unless a node has authenticated under the id while there were
-- reservations on it.
pub uploads_stay_bounded :
    (timeout min_free : ℕ) (w : World) {q : World} (id ref : ℕ)
    → w.registry ≡ new_registry timeout min_free
    → Reach w q
    → lookup id q.registry.nodes_by_id ≡ some ref
    → ((q.registry.objects ref).node_id ≡ id)
      × ((q.registry.objects ref).authenticated ≡ true)
      × ((q.registry.objects ref).active_uploads ≤ held id q.registry.reservations)
      × (((q.registry.objects ref).active_uploads ≡ held id q.registry.reservations)
          ⊎ Rejoined id w.registry q.registry)
uploads_stay_bounded timeout min_free w id ref e r h =
    let empty : IsSound w.registry = rw e (new_registry-IsSound timeout min_free) in
    let v = Reach-IsSound empty (history-follows r) in
    (
      v.keyed id ref h,
      v.known id ref h,
      v.bounded id ref h,
      elim (Reach-IsCharged id empty (rw e (new_registry-IsCharged timeout min_free id))
          (history-follows r)) [
            | inl c ↦ inl (omega (arith, v.bounded id ref h, c ref h))
            | inr j ↦ inr j
          ],
    )
