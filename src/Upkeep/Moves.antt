-- ===== src/Upkeep/Moves.antt =====
-- What the upkeep does to the registry: the cleanup releases the slots of the uploads that it deletes.
use lan_secure_file_system.Common.{
  ℕ, some, List, [], ◌∷◌, Text, ◌==◌, inl, inr, Bool-cases, if◌then◌else◌,
}
use lan_secure_file_system.Registry.{Registry}
use lan_secure_file_system.Registry.Balancing.{release_reservation}
use lan_secure_file_system.Registry.History.{Reach, start, next, releases, Reach-trans}
use lan_secure_file_system.World.{File, World}
use lan_secure_file_system.World.Moves.{
  Moves, Always, moves, Moves-pure, Moves-bind, Moves-manage, Moves-clock, Moves-update_returning,
}
use lan_secure_file_system.Upkeep.{mark_all, reconcile_node, release_all, cleanup_orphaned_uploads}

Moves-mark_all : (fs : List File) → Moves Always (mark_all fs)
unfolding mark_all
Moves-mark_all [] = Moves-pure tt
Moves-mark_all (f ∷ fs) = Moves-bind (search moves depth 20) (λ t. Moves-mark_all fs)

pub Moves-reconcile_node : (node : ℕ) (shas : List Text) → Moves Always (reconcile_node node shas)
unfolding reconcile_node
Moves-reconcile_node node shas = search (moves, Moves-mark_all) depth 20

release_all-Reach : (fs : List File) (r : Registry) → Reach r (release_all fs r)
unfolding release_all
release_all-Reach [] r = start
release_all-Reach (f ∷ fs) r = elim (Bool-cases (f.id == 0)) [
  | inl e ↦ rw e (release_all-Reach fs r)
  | inr e ↦ rw e (
      Reach-trans (next start (releases (some f.id)))
        (release_all-Reach fs (release_reservation r (some f.id)).0))
]

released_all :
    (fs : List File) (w : World)
    → Reach w.registry (if w.config.has_registry then release_all fs w.registry else w.registry)
released_all fs w = elim (Bool-cases w.config.has_registry) [
  | inl e ↦ rw e (release_all-Reach fs w.registry)
  | inr e ↦ rw e start
]

pub Moves-cleanup_orphaned_uploads : Moves Always cleanup_orphaned_uploads
unfolding cleanup_orphaned_uploads
Moves-cleanup_orphaned_uploads = Moves-bind Moves-clock (λ now.
    Moves-bind (Moves-update_returning _)
      (λ swept. Moves-bind (Moves-manage _ (λ w p. released_all swept w)) (λ t. Moves-pure _)))
