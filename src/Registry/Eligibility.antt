-- ===== src/Registry/Eligibility.antt =====
-- What the filter and the score of `select_for_upload` mean.
use lan_secure_file_system.Common.{
  ℕ, ◌+◌, ◌≤◌, ◌<◌, ◌≡◌, ◌⊎◌, inl, inr, true, false, Option, none, some, arith, Option-cases,
}
use lan_secure_file_system.Registry.{Node, Registry, is_healthy, has_address}
use lan_secure_file_system.Registry.Balancing.{
  more_free, has_enough_capacity, score_lt, is_eligible,
}

-- Room for an upload: free bytes that nobody has told count as enough.
abbrev HasRoom : ℕ → Option ℕ → Type 0
HasRoom min_free none = Unit
HasRoom min_free (some free) = min_free ≤ free

-- A node that may take an upload
pub record MayTake (r : Registry) (now : ℕ) (node : Node) : Type 0 where
  pub is_authenticated : node.authenticated ≡ true
  pub pinged : now < node.last_ping_time + r.timeout_seconds
  pub addressed : has_address node.storage_address ≡ true
  pub roomy : HasRoom r.min_free_bytes node.free_bytes

-- At least as many free bytes, where an unknown number is the largest
abbrev AsMuch : Option ℕ → Option ℕ → Type 0
AsMuch none b = Unit
AsMuch (some a) none = ⊥
AsMuch (some a) (some b) = b ≤ a

-- The first node is no worse a choice than the second.
abbrev pub Preferred : Node → Node → Type 0
Preferred a b =
    (a.active_uploads < b.active_uploads)
    ⊎ ((a.active_uploads ≡ b.active_uploads) × AsMuch a.free_bytes b.free_bytes)

more_free-AsMuch : (a b : Option ℕ) → more_free a b ≡ true → AsMuch a b
more_free-AsMuch none b h = tt
more_free-AsMuch (some a) none h = ground arith
more_free-AsMuch (some a) (some b) h = ground arith

not_more_free-AsMuch : (a b : Option ℕ) → more_free a b ≡ false → AsMuch b a
not_more_free-AsMuch a none h = tt
not_more_free-AsMuch none (some b) h = ground arith
not_more_free-AsMuch (some a) (some b) h = ground arith

pub score_lt-Preferred : (a b : Node) → score_lt a b ≡ true → Preferred a b
unfolding score_lt
score_lt-Preferred a b h = ground (
  arith,
  more_free-AsMuch a.free_bytes b.free_bytes,
  not_more_free-AsMuch b.free_bytes a.free_bytes,
)

pub not_score_lt-Preferred : (a b : Node) → score_lt a b ≡ false → Preferred b a
unfolding score_lt
not_score_lt-Preferred a b h = ground (arith, not_more_free-AsMuch a.free_bytes b.free_bytes)

has_enough-HasRoom :
    (min_free : ℕ) (node : Node)
    → has_enough_capacity min_free node ≡ true
    → HasRoom min_free node.free_bytes
unfolding has_enough_capacity
has_enough-HasRoom min_free node h = elim (Option-cases node.free_bytes) [
  | inl e ↦ rw e tt
  | inr (free, e) ↦ rw e (ground arith)
]

HasRoom-has_enough :
    (min_free : ℕ) (node : Node)
    → HasRoom min_free node.free_bytes
    → has_enough_capacity min_free node ≡ true
unfolding has_enough_capacity
HasRoom-has_enough min_free node h = elim (Option-cases node.free_bytes) [
  | inl e ↦ rw e (ground arith)
  | inr (free, e) ↦ let fits : min_free ≤ free = rw e at h in rw e (ground arith)
]

pub is_eligible-MayTake :
    (r : Registry) (now ref : ℕ) → is_eligible r now ref ≡ true → MayTake r now (r.objects ref)
unfolding is_eligible is_healthy
is_eligible-MayTake r now ref h = record {
  is_authenticated = ground arith;
  pinged = ground arith;
  addressed = ground arith;
  roomy = has_enough-HasRoom r.min_free_bytes (r.objects ref) (ground arith);
}

pub not_eligible-MayTake :
    (r : Registry) (now ref : ℕ) → is_eligible r now ref ≡ false → ¬ MayTake r now (r.objects ref)
unfolding is_eligible is_healthy
not_eligible-MayTake r now ref h m = ground (
  arith,
  m.is_authenticated,
  m.pinged,
  m.addressed,
  HasRoom-has_enough r.min_free_bytes (r.objects ref) m.roomy,
)
