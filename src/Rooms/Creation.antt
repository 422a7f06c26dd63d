-- ===== src/Rooms/Creation.antt =====
-- What create_room of the room service stores, and what it leaves behind where it fails.
use lan_secure_file_system.Common.{
  ℕ, ◌≡◌, refl, ◌⊎◌, inl, inr, true, false, not, ◌||◌, Option, none, some, ◌∷◌, Text, strip,
  is_empty, any, arith, ◌∙◌, ap, sym,
}
use lan_secure_file_system.World.{
  Role, is_admin, owner, Room, Member, Db, World, ErrorCode, permission_denied, invalid_input,
  database_error, Fault, Runs, bind, on_attempt, on_audit, on_fail, on_insert_row, on_require,
  on_clock, on_new_uuid, on_pure, members-audited, rooms-audited,
}
use lan_secure_file_system.Access.{is_row_of}
use lan_secure_file_system.Rooms.{create, store_room, insert_room, insert_member, has_user}

abbrev new_room : ℕ → Text → World → Room
new_room user name w = record {
  id = w.next_uuid;
  name = strip name;
  created_by = user;
  created_at = w.now;
}

abbrev pub first_owner : ℕ → World → Member
first_owner user w = record {
  room_id = w.next_uuid;
  user_id = user;
  role = owner;
  added_at = w.now;
}

-- A room that was created: by an administrator, with one member, its creator and owner.
pub record Created (user : ℕ) (role : Role) (name : Text) (w : World) (reply : Room) (after : Db)
    : Type 0 where
  pub by_admin : is_admin role ≡ true
  pub named : is_empty name || is_empty (strip name) ≡ false
  pub creator_exists : has_user user w.db ≡ true
  pub replied :
      reply ≡ record { id = w.next_uuid; name = name; created_by = user; created_at = w.now }
  pub stored : after.rooms ≡ new_room user name w ∷ w.rooms
  pub was_no_row : any (is_row_of w.next_uuid user) w.members ≡ false
  pub owned : after.members ≡ first_owner user w ∷ w.members

-- Why a creation is refused, and what is left in the tables. The two insertions are two transactions: a
-- room whose owner could not be stored stays, without a member.
pub data CreateError (user : ℕ) (role : Role) (name : Text) (w : World) (after : Db)
    : Option ErrorCode → Type 0 where
  not_admin :
      is_admin role ≡ false
      → after.rooms ≡ w.rooms
      → CreateError user role name w after (some permission_denied)
  no_name :
      is_empty name || is_empty (strip name) ≡ true
      → after.rooms ≡ w.rooms
      → CreateError user role name w after (some invalid_input)
  no_room_stored :
      Fault w ⊎ (insert_room (new_room user name w) w.db ≡ none)
      → after.rooms ≡ w.rooms
      → CreateError user role name w after (some database_error)
  no_owner_stored :
      Fault w ⊎ (any (is_row_of w.next_uuid user) w.members ≡ true)
      → after.rooms ≡ new_room user name w ∷ w.rooms
      → CreateError user role name w after (some database_error)

insert_room-stores :
    (r : Room) (db db' : Db)
    → insert_room r db ≡ some db'
    → (has_user r.created_by db ≡ true) × (db' ≡ record db { rooms = r ∷ db.rooms })
insert_room-stores r db db' h = ground arith

-- With the room and the creator there, only an old row of the table refuses a new one.
insert_member-refused :
    (r : Room) (m : Member) (db : Db)
    → m.room_id ≡ r.id
    → has_user m.user_id db ≡ true
    → insert_member m (record db { rooms = r ∷ db.rooms }) ≡ none
    → any (is_row_of m.room_id m.user_id) db.members ≡ true
insert_member-refused r m db e u h = ground arith

insert_member-stores :
    (m : Member) (db db' : Db)
    → insert_member m db ≡ some db'
    → (any (is_row_of m.room_id m.user_id) db.members ≡ false)
      × (db' ≡ record db { members = m ∷ db.members })
insert_member-stores m db db' h = ground arith

-- `create_room` succeeds only for an administrator and a name that is not blank, and then stores the
-- room, with the name stripped, and its creator as its one owner. Otherwise it changes no member, the
-- error is the true one, and no room is stored but one: that of a call which could not store the owner.
pub create-Runs :
    (user : ℕ) (role : Role) (name : Text) (w : World)
    → Runs
        (create user role name)
        w
        (λ r q. Created user role name w r q.db)
        (λ code q. (q.members ≡ w.members) × CreateError user role name w q.db code)
unfolding create store_room
create-Runs user role name w = bind (
    on_require _ _ (λ e. (refl, not_admin e refl))
      (λ is_adm. bind (
        on_require _ _ (λ e. (refl, no_name (blank e) refl))
          (λ is_named. bind (
            on_new_uuid (
              bind (
                on_clock (
                  on_attempt _ _ (
                    bind (
                      bind (
                        on_insert_row _ (λ f. on_fail _ (refl, no_room_stored (inl f) refl))
                          (λ e. on_fail _ (refl, no_room_stored (inr e) refl))
                          (λ db e. bind (
                            on_insert_row _
                              (λ f.
                                on_fail _
                                  (ap_members db e, no_owner_stored (inl f) (ap_rooms db e)))
                              (λ e'. on_fail _ (
                                ap_members db e,
                                no_owner_stored (inr (taken db e e')) (ap_rooms db e),
                              ))
                              (λ db' e'. on_audit _ (
                                on_pure _ (record {
                                  by_admin = is_adm;
                                  named = not_blank is_named;
                                  creator_exists = (insert_room-stores _ w.db db e).0;
                                  replied = refl;
                                  stored = rooms-audited _ _ ∙ (rooms_after db e db' e');
                                  was_no_row = no_row db e db' e';
                                  owned = members-audited _ _ ∙ (members_after db e db' e');
                                }))))))))))))))))
  where
    blank :
        not (is_empty name || is_empty (strip name)) ≡ false
        → is_empty name || is_empty (strip name) ≡ true
    blank h = ground arith

    not_blank :
        not (is_empty name || is_empty (strip name)) ≡ true
        → is_empty name || is_empty (strip name) ≡ false
    not_blank h = ground arith

    stored_db :
        (db : Db)
        → insert_room (new_room user name w) w.db ≡ some db
        → db ≡ record w.db { rooms = new_room user name w ∷ w.rooms }
    stored_db db e = (insert_room-stores (new_room user name w) w.db db e).1

    ap_members :
        (db : Db) → insert_room (new_room user name w) w.db ≡ some db → db.members ≡ w.members
    ap_members db e = ap (λ d. d.members) (stored_db db e)

    ap_rooms :
        (db : Db)
        → insert_room (new_room user name w) w.db ≡ some db
        → db.rooms ≡ new_room user name w ∷ w.rooms
    ap_rooms db e = ap (λ d. d.rooms) (stored_db db e)

    taken :
        (db : Db)
        → insert_room (new_room user name w) w.db ≡ some db
        → insert_member (first_owner user w) db ≡ none
        → any (is_row_of w.next_uuid user) w.members ≡ true
    taken db e e' =
        insert_member-refused (new_room user name w) (first_owner user w) w.db refl
          (insert_room-stores (new_room user name w) w.db db e).0
          (ap (insert_member (first_owner user w)) (sym (stored_db db e)) ∙ e')

    members_after :
        (db : Db)
        → insert_room (new_room user name w) w.db ≡ some db
        → (db' : Db) → insert_member (first_owner user w) db ≡ some db'
        → db'.members ≡ first_owner user w ∷ w.members
    members_after db e db' e' =
        ap (λ d. d.members) (insert_member-stores (first_owner user w) db db' e').1
        ∙ ap (λ ms. first_owner user w ∷ ms) (ap_members db e)

    no_row :
        (db : Db)
        → insert_room (new_room user name w) w.db ≡ some db
        → (db' : Db) → insert_member (first_owner user w) db ≡ some db'
        → any (is_row_of w.next_uuid user) w.members ≡ false
    no_row db e db' e' =
        ap (any (is_row_of w.next_uuid user)) (sym (ap_members db e))
        ∙ (insert_member-stores (first_owner user w) db db' e').0

    rooms_after :
        (db : Db)
        → insert_room (new_room user name w) w.db ≡ some db
        → (db' : Db) → insert_member (first_owner user w) db ≡ some db'
        → db'.rooms ≡ new_room user name w ∷ w.rooms
    rooms_after db e db' e' =
        ap (λ d. d.rooms) (insert_member-stores (first_owner user w) db db' e').1 ∙ ap_rooms db e
