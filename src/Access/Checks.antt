-- ===== src/Access/Checks.antt =====
-- Who passes the membership tests that the room and file services repeat: what the rest of a call may
-- take for granted after one of them.
use lan_secure_file_system.Common.{
  ℕ, ◌≡◌, ◌⊎◌, inl, inr, Bool, true, false, Option, none, some, arith,
}
use lan_secure_file_system.World.{
  Role, is_admin, Db, World, ErrorCode, Runs, Fault, tick, bind, on_pure, on_query, on_choose,
  on_some,
}
use lan_secure_file_system.Access.{
  Permission, is_create_room, allowed_by, check_permission, membership, owns, found,
  can_manage_members, has_room_access,
}

-- A global administrator, or an owner of the room.
abbrev pub Manages : ℕ → Role → ℕ → Db → Type 0
Manages user role room db = (is_admin role ≡ true) ⊎ (owns (membership room user db) ≡ true)

-- A global administrator, or a member of the room.
abbrev pub Enters : ℕ → Role → ℕ → Db → Type 0
Enters user role room db = (is_admin role ≡ true) ⊎ (found (membership room user db) ≡ true)

either : {a b : Bool} → (a ≡ false) → (b ≡ false) → ¬ ((a ≡ true) ⊎ (b ≡ true))
either h k s = ground arith

module _ (user : ℕ) (role : Role) (room : ℕ) (w : World) {good : Bool → World → Type 0}
    {bad : Option ErrorCode → World → Type 0} where
  pub on_can_manage_members :
      (Fault w → bad none (tick w))
      → ((n : ℕ) (b : Bool)
          → (b ≡ true → Manages user role room w.db)
          → (b ≡ false → ¬ Manages user role room w.db)
          → good b (record w { calls = n }))
      → Runs (can_manage_members user role room) w good bad
  unfolding can_manage_members
  on_can_manage_members f k =
      on_choose _ _ _ (λ is. on_pure _ (k w.calls true (λ _. inl is) (λ e. ground arith)))
        (λ is_not. bind (on_query _ f (on_pure _ (k _ _ inr (either is_not)))))

  pub on_has_room_access :
      (Fault w → bad none (tick w))
      → ((n : ℕ) (b : Bool)
          → (b ≡ true → Enters user role room w.db)
          → (b ≡ false → ¬ Enters user role room w.db)
          → good b (record w { calls = n }))
      → Runs (has_room_access user role room) w good bad
  unfolding has_room_access
  on_has_room_access f k =
      on_choose _ _ _ (λ is. on_pure _ (k w.calls true (λ _. inl is) (λ e. ground arith)))
        (λ is_not. bind (on_query _ f (on_pure _ (k _ _ inr (either is_not)))))

-- A global administrator, or a member whose role the matrix allows the action.
abbrev pub May : ℕ → Role → ℕ → Permission → Db → Type 0
May user role room action db =
    (is_admin role ≡ true)
    ⊎ ((is_create_room action ≡ false) × (allowed_by (membership room user db) action ≡ true))

not_creating : {a b c : Bool} → a ≡ false → b ≡ true → ¬ ((a ≡ true) ⊎ ((b ≡ false) × (c ≡ true)))
not_creating h k s = ground arith

not_allowed : {a b c : Bool} → a ≡ false → c ≡ false → ¬ ((a ≡ true) ⊎ ((b ≡ false) × (c ≡ true)))
not_allowed h k s = ground arith

module _ (user : ℕ) (role : Role) (room : ℕ) (action : Permission) (w : World)
    {good : Bool → World → Type 0} {bad : Option ErrorCode → World → Type 0} where
  pub on_check_permission :
      (Fault w → bad none (tick w))
      → ((n : ℕ) (b : Bool)
          → (b ≡ true → May user role room action w.db)
          → (b ≡ false → ¬ May user role room action w.db)
          → good b (record w { calls = n }))
      → Runs (check_permission user role (some room) action) w good bad
  unfolding check_permission
  on_check_permission f k =
      on_choose _ _ _ (λ is. on_pure _ (k w.calls true (λ _. inl is) (λ e. ground arith)))
        (λ is_not.
          on_choose _ _ _
            (λ creates.
              on_pure _ (k w.calls false (λ e. ground arith) (λ e. not_creating is_not creates)))
            (λ other.
              on_some _ _ _ (
                bind
                  (on_query _ f (on_pure _ (k _ _ (λ e. inr (other, e)) (not_allowed is_not)))))))
