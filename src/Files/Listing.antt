-- ===== src/Files/Listing.antt =====
-- What the list of the files of a room shows, and to whom.
use lan_secure_file_system.Common.{
  ℕ, ◌≡◌, refl, ◌∙◌, Bool, true, false, ◌&&◌, Option, none, some, List, [], ◌∷◌, length, keep,
  count, find, any, place, sort, leb, ◌==◌, if◌then◌else◌, arith,
}
use lan_secure_file_system.World.{
  Role, is_ready, User, File, Db, World, ErrorCode, permission_denied, database_error, Fault, Runs,
  bind, on_attempt, on_fail, on_query, on_require,
}
use lan_secure_file_system.Access.Checks.{Enters, on_has_room_access}
use lan_secure_file_system.Rooms.{has_user}
use lan_secure_file_system.Files.{join_uploaders, ready_files, list_files}

abbrev all_rows : (File → Bool) → List (File × ℕ) → Bool
all_rows p [] = true
all_rows p (row ∷ rows) = p row.0 && all_rows p rows

all_rows-join :
    (p : File → Bool) (db : Db) (fs : List File)
    → any (λ f. if p f then false else true) fs ≡ false
    → all_rows p (join_uploaders db fs) ≡ true
all_rows-join p db [] h = refl
all_rows-join p db (f ∷ fs) h = ground (arith, all_rows-join p db fs)

any-place :
    (p : File → Bool) (le : File → File → Bool) (f : File) (fs : List File)
    → any p (place le f fs) ≡ any p (f ∷ fs)
any-place p le f [] = refl
any-place p le f (g ∷ gs) = ground (arith, any-place p le f gs)

any-sort :
    (p : File → Bool) (le : File → File → Bool) (fs : List File) → any p (sort le fs) ≡ any p fs
any-sort p le [] = refl
any-sort p le (f ∷ fs) = any-place p le f (sort le fs) ∙ ground (arith, any-sort p le fs)

any-keep :
    (p : File → Bool) (fs : List File) → any (λ f. if p f then false else true) (keep p fs) ≡ false
any-keep p [] = refl
any-keep p (f ∷ fs) = ground (arith, any-keep p fs)

count-place :
    (p : File → Bool) (le : File → File → Bool) (f : File) (fs : List File)
    → count p (place le f fs) ≡ count p (f ∷ fs)
count-place p le f [] = refl
count-place p le f (g ∷ gs) = ground (arith, count-place p le f gs)

count-sort :
    (p : File → Bool) (le : File → File → Bool) (fs : List File) → count p (sort le fs) ≡ count p fs
count-sort p le [] = refl
count-sort p le (f ∷ fs) = count-place p le f (sort le fs) ∙ ground (arith, count-sort p le fs)

count-keep : (p q : File → Bool) (fs : List File) → count q (keep p fs) ≡ count (λ f. p f && q f) fs
count-keep p q [] = refl
count-keep p q (f ∷ fs) = ground (arith, count-keep p q fs)

has_user-user_of :
    (id : ℕ) (us : List User)
    → any (λ u. u.id == id) us ≡ (elim (find (λ u. u.id == id) us) [ none ↦ false | some u ↦ true ])
has_user-user_of id [] = refl
has_user-user_of id (u ∷ us) = ground (arith, has_user-user_of id us)

length-join :
    (db : Db) (fs : List File)
    → length (join_uploaders db fs) ≡ count (λ f. has_user f.uploader_id db) fs
length-join db [] = refl
length-join db (f ∷ fs) = ground (arith, length-join db fs, has_user-user_of f.uploader_id db.users)

-- A list that was shown: to a member of the room or a global administrator, of READY files of the room
-- only, and of each of them whose uploader is still a user, once.
pub record Listed (user : ℕ) (role : Role) (room : ℕ) (w : World) (rows : List (File × ℕ))
    : Type 0 where
  pub permitted : Enters user role room w.db
  pub all_ready : all_rows (λ f. (f.room_id == room) && is_ready f.status) rows ≡ true
  pub complete :
      length rows
      ≡ count
          (λ f. ((f.room_id == room) && is_ready f.status) && has_user f.uploader_id w.db)
          w.files

-- Why none is shown: `none` is an exception.
pub data ListError (user : ℕ) (role : Role) (room : ℕ) (w : World) : Option ErrorCode → Type 0 where
  not_permitted : ¬ Enters user role room w.db → ListError user role room w (some permission_denied)
  not_read : Fault w → ListError user role room w (some database_error)
  broken : Fault w → ListError user role room w none

-- `list_files` shows the READY files of a room, all of them whose uploader is a user and no other file, to
-- its members and to global administrators, and changes no table. A refusal tells the true reason.
pub list_files-Runs :
    (user : ℕ) (role : Role) (room : ℕ) (w : World)
    → Runs
        (list_files user role room)
        w
        (λ rows q. Listed user role room w rows × (q.db ≡ w.db))
        (λ code q. ListError user role room w code × (q.db ≡ w.db))
unfolding list_files
list_files-Runs user role room w = bind (
    on_has_room_access user role room w (λ f. (broken f, refl))
      (λ n allowed yes no. bind (
        on_require _ _ (λ e. (not_permitted (no e), refl))
          (λ a. on_attempt _ _ (
            on_query _ (λ f. on_fail _ (not_read f, refl))
              (record { permitted = yes a; all_ready = sound; complete = whole }, refl))))))
  where
    wanted : File → Bool
    wanted f = (f.room_id == room) && is_ready f.status

    newest : File → File → Bool
    newest f g = leb g.created_at f.created_at

    sound : all_rows wanted (ready_files room w.db) ≡ true
    sound = all_rows-join wanted w.db (sort newest (keep wanted w.files)) (
        any-sort (λ f. if wanted f then false else true) newest (keep wanted w.files)
        ∙ any-keep wanted w.files)

    whole :
        length (ready_files room w.db)
        ≡ count (λ f. wanted f && has_user f.uploader_id w.db) w.files
    whole =
        length-join w.db (sort newest (keep wanted w.files))
        ∙ count-sort (λ f. has_user f.uploader_id w.db) newest (keep wanted w.files)
        ∙ count-keep wanted (λ f. has_user f.uploader_id w.db) w.files
