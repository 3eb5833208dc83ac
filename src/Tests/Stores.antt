-- ===== src/Tests/Stores.antt =====
-- A database whose state is its tables, and whose statements all succeed.
use mathlib.Core.Path.{subst}
use niba.Prelude.{
  ℕ, zero, suc, ◌≡◌, ◌≢◌, ◌⊎◌, refl, ap, inl, String, true, false, Option, none, some, List, [],
  ◌∷◌, length,
}
use niba.Prelude.Int.{ℤ, pos}
use niba.Prelude.Run.{done}
use niba.Prelude.Strings.{size}
use niba.Structs.{Magic, no_stats}
use niba.Database.{Answer, rows, unique_violation, User, Sql}
use niba.Database.Passwords.{hash_size, padded}
use niba.Database.Accessor.{login, create_user, fuse_magic}
use niba.Database.Tables.{
  Tables, IsLawful, updated_at, row_list, set_user, set_magic, set_equipped, logged_in_as,
  updated_magic,
}
use niba.Database.Accounts.{Welcomed, login-Welcomed, login-once}
use niba.Database.Registration.{login-create_user}
use niba.Database.Fusions.{fused_tables, fuse_magic-atomic}

abbrev inserted : String → List ℕ → List ℕ → Tables → Option User → Answer (Unit {0}) × Tables
inserted id hash salt t none =
    (rows tt, set_user t id (record { hashed_password = hash; salt = salt; logged_in = false }))
inserted id hash salt t (some u) = (unique_violation, t)

-- The number of bytes stands for the bytes, and the buffer for its digest.
abbrev tables : Sql
tables = record {
  State = Tables;
  Tx = Tables;
  Context = List ℕ;
  bytes = λ s. size s ∷ [];
  rand_bytes = λ t. (some (padded hash_size (7 ∷ [])), t);
  sha256_init = some [];
  sha256_update = λ c buffer. some buffer;
  sha256_final = λ c. some (padded hash_size c);
  select_user = λ id t. (rows (row_list (t.users id)), t);
  update_logged_in =
      λ b id t. (rows tt, record t { users = updated_at t.users id (logged_in_as b (t.users id)) });
  insert_user = λ id hash salt t. inserted id hash salt t (t.users id);
  select_character = λ id t. (rows [], t);
  select_magics = λ name t. (rows [], t);
  select_equipped = λ name t. (rows (row_list (t.equipped name)), t);
  insert_character = λ id p t. (rows tt, t);
  insert_magic = λ name m t. (rows tt, set_magic t name m.magic_id (some m));
  upsert_equipped = λ name ids t. (rows tt, set_equipped t name ids);
  begin = λ t. (some t, t);
  update_magic_tx = λ name m t.
      (rows tt, set_magic t name m.magic_id (updated_magic m (t.magics name m.magic_id)));
  delete_magic_tx = λ name id t. (rows tt, set_magic t name id none);
  upsert_equipped_tx = λ name ids t. (rows tt, set_equipped t name ids);
  commit = λ tx t. (rows tt, tx);
}

padded-length : (n : ℕ) (bytes : List ℕ) → length (padded n bytes) ≡ n
unfolding padded
padded-length zero bytes = refl
padded-length (suc n) [] = ap suc (padded-length n [])
padded-length (suc n) (b ∷ bytes) = ap suc (padded-length n bytes)

inserted-view :
    (id : String) (hash salt : List ℕ) (t : Tables) (o : Option User) {u : Unit {0}}
    → (inserted id hash salt t o).0 ≡ rows u
    → (o ≡ none)
      × ((inserted id hash salt t o).1
          ≡ set_user t id (record { hashed_password = hash; salt = salt; logged_in = false }))
inserted-view id hash salt t none h = (refl, refl)
inserted-view id hash salt t (some v) h = cc

digest-length :
    (c d : List ℕ)
    → ◌≡◌ {A = Option (List ℕ)} (some (padded hash_size c)) (some d)
    → length d ≡ hash_size
digest-length c d h =
    let e : padded hash_size c ≡ d = cc in
    subst (λ l. length l ≡ hash_size) e (padded-length hash_size c)

selected_rows :
    (xs found : List User) → ◌≡◌ {A = Answer (List User)} (rows xs) (rows found) → found ≡ xs
selected_rows xs found h = cc

tables-IsLawful : IsLawful tables
tables-IsLawful = record {
  view = λ t. t;
  view_tx = λ t. t;
  sha256_final-length = λ c {d} h. digest-length c d h;
  rand_bytes-view = λ t. refl;
  select_user-view = λ id t. refl;
  select_user-rows = λ id t {found} h. selected_rows (row_list (t.users id)) found h;
  update_logged_in-view = λ b id t h. refl;
  insert_user-view = λ id hash salt t h. inserted-view id hash salt t (t.users id) h;
  begin-view = λ t. refl;
  begin-view_tx = λ t h. cc;
  update_magic_tx-view = λ name m t h. refl;
  delete_magic_tx-view = λ name id t h. refl;
  upsert_equipped_tx-view = λ name ids t h. refl;
  commit-view = λ tx t. inl refl;
  commit-done = λ tx t h. refl;
}

abbrev nobody : Tables
nobody = record { users = λ id. none; magics = λ name id. none; equipped = λ name. none }

abbrev registered : Tables
registered = (create_user tables "niba" "secret" nobody).1

niba_registers : create_user tables "niba" "secret" nobody ≡ (done true, registered)
unfolding create_user
niba_registers = refl

abbrev present : Tables
present = (login tables "niba" "secret" registered).1

niba_logs_in : login tables "niba" "secret" registered ≡ (done true, present)
unfolding create_user login
niba_logs_in = refl

login-create_user_example : (login tables "niba" "secret" registered).0 ≡ done true
login-create_user_example =
    login-create_user tables tables-IsLawful "niba" "secret" nobody niba_registers refl refl

login-Welcomed_example : Welcomed tables tables-IsLawful "niba" "secret" registered present
login-Welcomed_example =
    login-Welcomed tables tables-IsLawful "niba" "secret" registered niba_logs_in

login-once_example : (login tables "niba" "secret" present).0 ≢ done true
login-once_example =
    login-once tables tables-IsLawful "niba" "secret" "secret" registered present niba_logs_in refl

abbrev spark : ℤ → Magic
spark id = record {
  magic_id = id;
  name = "spark";
  active = pos 1;
  multiplier = pos 100;
  inner_damage = pos 0;
  cd = pos 1;
  mp_cost = pos 0;
  inner_property = b'n';
  description = "";
  stats = no_stats;
}

abbrev learned_two : Tables
learned_two =
    set_magic (set_magic nobody "niba" (pos 1) (some (spark (pos 1)))) "niba" (pos 2)
      (some (spark (pos 2)))

fuse_magic-atomic_example :
    (((fuse_magic tables "niba" (spark (pos 1)) (pos 2) [] learned_two).1 ≡ learned_two)
      ⊎ ((fuse_magic tables "niba" (spark (pos 1)) (pos 2) [] learned_two).1
          ≡ fused_tables "niba" (spark (pos 1)) (pos 2) [] learned_two))
    × ((fuse_magic tables "niba" (spark (pos 1)) (pos 2) [] learned_two).0 ≡ done true
        → (fuse_magic tables "niba" (spark (pos 1)) (pos 2) [] learned_two).1
          ≡ fused_tables "niba" (spark (pos 1)) (pos 2) [] learned_two)
unfolding fuse_magic tables-IsLawful
fuse_magic-atomic_example =
    fuse_magic-atomic tables tables-IsLawful "niba" (spark (pos 1)) (pos 2) [] learned_two
