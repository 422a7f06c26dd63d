-- ===== src/Nodes/Admission.antt =====
-- What the registry knows of a storage node that was admitted.
use lan_secure_file_system.Common.{
  ℕ, ◌≡◌, refl, true, false, Option, some, ap, ◌∙◌, not, ◌==◌, List, Text, arith,
}
use lan_secure_file_system.Registry.{Registry}
use lan_secure_file_system.Registry.Connections.{authenticate, update_capacity}
use lan_secure_file_system.Registry.Manifest.{member, set_manifest}
use lan_secure_file_system.Registry.Holdings.{reported}
use lan_secure_file_system.Registry.Enrolment.{
  Enrolled, authenticate-Enrolled, update_capacity-Enrolled, set_manifest-Enrolled,
  set_manifest-lists,
}
use lan_secure_file_system.World.{
  World, audit, manage, maybe, pure, ◌>>◌, registry-audited, Runs, weaken, bind, on_attempt,
  on_audit, on_look, on_manage, on_maybe, on_pure, on_some, on_when,
}
use lan_secure_file_system.Upkeep.Losses.{reconcile_node-Runs}
use lan_secure_file_system.Nodes.{
  Peer, Auth, Number, no_number, malformed, number, Hashes, no_hashes, not_a_list, hashes, Reply,
  authenticated_as, id_of, node_entry, parsed, credentials, take_manifest, admit_node,
}

-- What the registry knows of a node that was admitted on a connection: it goes by the id that the reply
-- names, with the free bytes and, where it has an id, the manifest that came with its STORAGE_AUTH.
pub record Admission (peer : Peer) (m : Auth) (now ref : ℕ) (r : Registry) : Type 0 where
  pub enrolled : Enrolled peer.connection (id_of peer m) now ref r
  pub capacity : (n : ℕ) → m.free_bytes ≡ number n → (r.objects ref).free_bytes ≡ some n
  pub listing :
      (shas : List Text)
      → m.manifest ≡ hashes shas
      → not (id_of peer m == 0) ≡ true
      → ((r.objects ref).manifest_received ≡ true)
        × ((norm : Text) → member norm (r.objects ref).files ≡ reported norm shas)
  pub unlisted :
      ((shas : List Text) → ¬ (m.manifest ≡ hashes shas))
      → (r.objects ref).manifest_received ≡ false

abbrev pub after_manifest : ℕ → Hashes → Registry → Registry
after_manifest id no_hashes r = r
after_manifest id not_a_list r = r
after_manifest id (hashes shas) r = (set_manifest r (some id) shas).0

abbrev pub after_capacity : ℕ → Number → Registry → Registry
after_capacity connection no_number r = r
after_capacity connection malformed r = r
after_capacity connection (number free) r = update_capacity r connection free

take_manifest-Runs :
    (id : ℕ) (m : Hashes) (w : World) {good : Unit {0} → World → Type 0}
    → ((t : Unit {0}) (q : World) → q.registry ≡ after_manifest id m w.registry → good t q)
    → Runs (take_manifest id m) w good (λ code q. ⊥)
unfolding take_manifest
take_manifest-Runs id no_hashes w g = on_pure _ (g _ _ refl)
take_manifest-Runs id not_a_list w g = on_pure _ (g _ _ refl)
take_manifest-Runs id (hashes shas) w g = bind (
    on_manage _ (
      bind (
        on_look _ (
          on_maybe _ _ _ (λ n. on_pure _ (g _ _ refl))
            (λ found e.
              on_when _ _
                (λ r. on_attempt _ _ (
                  bind (
                    weaken (reconcile_node-Runs id found _) (λ lost q h. on_pure _ (g _ _ h.1))
                      (λ code q h. absurd h))))
                (λ r. g _ _ refl))))))

module _ (peer : Peer) (m : Auth) (now ref : ℕ) (r : Registry)
    (e : Enrolled peer.connection (id_of peer m) now ref r)
    (blank : (r.objects ref).manifest_received ≡ false) where
  after_capacity-Enrolled :
      (free : Number)
      → Enrolled peer.connection (id_of peer m) now ref (after_capacity peer.connection free r)
        × ((n : ℕ)
            → free ≡ number n
            → ((after_capacity peer.connection free r).objects ref).free_bytes ≡ some n)
        × (((after_capacity peer.connection free r).objects ref).manifest_received ≡ false)
  after_capacity-Enrolled no_number = (e, λ n h. ground arith, blank)
  after_capacity-Enrolled malformed = (e, λ n h. ground arith, blank)
  after_capacity-Enrolled (number free) =
      let (kept, told, same) =
        update_capacity-Enrolled peer.connection (id_of peer m) now ref r e free in
      (kept, λ n h. ground (arith, told), same ∙ blank)

  after_manifest-Admission :
      (p : Registry)
      → Enrolled peer.connection (id_of peer m) now ref p
      → ((n : ℕ) → m.free_bytes ≡ number n → (p.objects ref).free_bytes ≡ some n)
      → (p.objects ref).manifest_received ≡ false
      → (list : Hashes) → m.manifest ≡ list
      → Admission peer m now ref (after_manifest (id_of peer m) list p)
  after_manifest-Admission p k told none_yet no_hashes is = record {
    enrolled = k;
    capacity = told;
    listing = λ shas h named. ground arith;
    unlisted = λ never. none_yet;
  }
  after_manifest-Admission p k told none_yet not_a_list is = record {
    enrolled = k;
    capacity = told;
    listing = λ shas h named. ground arith;
    unlisted = λ never. none_yet;
  }
  after_manifest-Admission p k told none_yet (hashes shas) is =
      let (kept, same) = set_manifest-Enrolled peer.connection (id_of peer m) now ref p k shas in
      record {
        enrolled = kept;
        capacity = λ n h. same ∙ told n h;
        listing = λ others h named.
            let the_same : shas ≡ others = ground arith in
            rw (← the_same)
              (set_manifest-lists peer.connection (id_of peer m) now ref p k shas named);
        unlisted = λ never. absurd (never shas is);
      }

abbrev pub registry_after : Peer → Auth → Option ℕ → World → Registry
registry_after peer m port w = after_manifest (id_of peer m) m.manifest (
    after_capacity peer.connection m.free_bytes
      (authenticate w.registry w.now peer.connection (credentials peer m port)))

pub registry_after-Admission :
    (peer : Peer) (m : Auth) (port : Option ℕ) (w : World)
    → (ref : ℕ) × Admission peer m w.now ref (registry_after peer m port w)
registry_after-Admission peer m port w =
    let r = authenticate w.registry w.now peer.connection (credentials peer m port) in
    let (ref, e, blank) =
      authenticate-Enrolled w.registry w.now peer.connection (credentials peer m port) in
    let (kept, told, same) = after_capacity-Enrolled peer m w.now ref r e blank m.free_bytes in
    (ref, after_manifest-Admission peer m w.now ref r e blank _ kept told same m.manifest refl)

pub admit_node-Runs :
    (peer : Peer) (m : Auth) (port : Option ℕ) (w : World) {good : Reply → World → Type 0}
    → ((q : World)
        → q.registry ≡ registry_after peer m port w
        → good (authenticated_as (id_of peer m)) q)
    → Runs (admit_node peer m port) w good (λ code q. ⊥)
unfolding admit_node
admit_node-Runs peer m port w {good} g = bind (on_manage _ (bind (capacity m.free_bytes refl)))
  where
    rest :
        (q : World)
        → q.registry
          ≡ after_capacity peer.connection m.free_bytes
              (authenticate w.registry w.now peer.connection (credentials peer m port))
        → Runs
            (do
              audit (node_entry true (id_of peer m) true)
              take_manifest (id_of peer m) m.manifest
              pure (authenticated_as (id_of peer m)))
            q
            good
            (λ code p. ⊥)
    rest q e = bind (
        on_audit _ (
          bind (
            take_manifest-Runs _ _ _ (λ t p h. on_pure _ (
              g p
                (h ∙ ap (after_manifest (id_of peer m) m.manifest) (registry-audited q _ ∙ e)))))))

    capacity :
        (free : Number)
        → m.free_bytes ≡ free
        → Runs
            (maybe
              (parsed free)
              (pure tt)
              (λ n. manage (λ v. (update_capacity v.registry peer.connection n, tt))))
            (record w {
              registry = authenticate w.registry w.now peer.connection (credentials peer m port);
            })
            (λ t q.
              Runs
                (do
                  audit (node_entry true (id_of peer m) true)
                  take_manifest (id_of peer m) m.manifest
                  pure (authenticated_as (id_of peer m)))
                q
                good
                (λ code p. ⊥))
            (λ code p. ⊥)
    capacity no_number is = on_maybe _ _ _ (λ n. on_pure _ (rest _ (rw is refl))) (λ n e. cc)
    capacity malformed is = on_maybe _ _ _ (λ n. on_pure _ (rest _ (rw is refl))) (λ n e. cc)
    capacity (number free) is = on_some _ _ _ (on_manage _ (rest _ (rw is refl)))
