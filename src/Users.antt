-- ===== src/Users.antt =====
-- app/users: `UserRepository` and `UserService`.
mod Samples
pub mod Registration
use trelgream_self_userbot.Prelude.{
  ℕ, String, Bool, true, false, ◌||◌, Option, none, some, List, [], ◌∷◌, ◌==◌, ltb, str_eq, take,
  drop, if◌then◌else◌, refl,
}
use trelgream_self_userbot.Core.Exec.{Result, ok, Exec, pure, get, modify, lift, ◌>>=◌, ◌>>◌}
use trelgream_self_userbot.Database.Table.{select, one_or_none, change, insert}
use trelgream_self_userbot.Database.Table.Keyed.{by_id}
use trelgream_self_userbot.Database.Table.Order.{order_by}
use trelgream_self_userbot.Database.Models.Users.{User}
use trelgream_self_userbot.Database.State.{Database}
use trelgream_self_userbot.Database.Repository.{Model, add, change_rows, get_or_raise}

abbrev pub user_model : Model User
user_model = record {
  id = λ r. r.id;
  has_tenant = false;
  tenant = λ r. none;
  table = λ db. db.users;
  with_table = λ t db. record db { users = t };
  table-with_table = λ t db. refl;
}

abbrev pub has_telegram_id : ℕ → User → Bool
has_telegram_id telegram_id u = u.telegram_id == telegram_id

unfoldable pub get_by_telegram_id : ℕ → Exec Database (Option User)
get_by_telegram_id telegram_id db =
    (one_or_none (select (has_telegram_id telegram_id) db.users.rows), db)

abbrev same_text : String → Option String → Bool
same_text s none = false
same_text s (some t) = str_eq t s

unfoldable pub get_by_username : String → Exec Database (Option User)
get_by_username username db =
    (one_or_none (select (λ u. same_text username u.username) db.users.rows), db)

-- `column.ilike(like)`, which is NULL for a NULL; `ilike s query` is what the database says of the
-- text `s` and the pattern of `query` between percent signs
abbrev like_column : (ilike : String → String → Bool) → String → Option String → Bool
like_column ilike query none = false
like_column ilike query (some s) = ilike s query

abbrev fits : (ilike : String → String → Bool) → Option String → User → Bool
fits ilike none u = true
fits ilike (some query) u =
    if str_eq query ""
    then true
    else like_column ilike query u.username
      || like_column ilike query u.phone
      || like_column ilike query u.first_name

abbrev newest_first : User → User → Bool
newest_first u v = ltb v.id u.id

unfoldable pub search :
    (ilike : String → String → Bool) (query : Option String) (limit offset : ℕ)
    → Exec Database (List User)
unfolding order_by
search ilike query limit offset db = (
  ok (take limit (drop offset (order_by newest_first (select (fits ilike query) db.users.rows)))),
  db,
)

-- `given or old`
abbrev pub given_or : Option String → Option String → Option String
given_or none old = old
given_or (some s) old = if str_eq s "" then old else some s

abbrev pub new_user :
    (telegram_id : ℕ) (username first_name last_name : Option String) (now i : ℕ) → User
new_user telegram_id username first_name last_name now i = record {
  id = i;
  telegram_id = telegram_id;
  username = username;
  first_name = first_name;
  last_name = last_name;
  phone = none;
  is_active = true;
  is_suspended = false;
  last_active_at = some now;
}

abbrev pub refreshed : (username first_name last_name : Option String) (now : ℕ) → User → User
refreshed username first_name last_name now u = record u {
  username = given_or username u.username;
  first_name = given_or first_name u.first_name;
  last_name = given_or last_name u.last_name;
  last_active_at = some now;
}

abbrev pub change_user : User → (User → User) → Exec Database User
change_user u f = do modify (change_rows user_model (by_id (λ r. r.id) u.id) f); pure (f u)

abbrev pub or_new_user :
    (telegram_id : ℕ) (username first_name last_name : Option String) (now : ℕ)
    → Option User
    → Exec Database User
or_new_user telegram_id username first_name last_name now none =
    add user_model (new_user telegram_id username first_name last_name now)
or_new_user telegram_id username first_name last_name now (some u) =
    change_user u (refreshed username first_name last_name now)

unfoldable pub get_or_create :
    (telegram_id : ℕ) (username first_name last_name : Option String) (now : ℕ) → Exec Database User
unfolding get_by_telegram_id add
get_or_create telegram_id username first_name last_name now = do
  user ← get_by_telegram_id telegram_id
  or_new_user telegram_id username first_name last_name now user

unfoldable pub touch : (now : ℕ) → User → Exec Database (Unit {0})
touch now u =
    modify (
      change_rows user_model (by_id (λ r. r.id) u.id) (λ r. record r { last_active_at = some now }))

unfoldable pub get_user : ℕ → Exec Database User
unfolding get_or_raise
get_user user_id = get_or_raise user_model user_id
