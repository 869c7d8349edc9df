-- ===== src/Users/Samples.antt =====
-- A user who comes back under a new name.
use trelgream_self_userbot.Prelude.{◌≡◌, ◌≤◌, refl, true, false, none, some, [], ◌∷◌, arith, length}
use trelgream_self_userbot.Core.Exec.{ok}
use trelgream_self_userbot.Database.Table.{select, change, one_or_none}
use trelgream_self_userbot.Database.Models.Users.{User}
use trelgream_self_userbot.Database.State.{Database}
use trelgream_self_userbot.Database.Empty.{empty_database}
use trelgream_self_userbot.Users.{get_or_create}
use trelgream_self_userbot.Users.Registration.{
  IsRegistered, of_telegram, get_or_create-IsRegistered,
}

abbrev ali : User
ali = record {
  id = 1;
  telegram_id = 900;
  username = some "ali";
  first_name = some "Ali";
  last_name = none;
  phone = none;
  is_active = true;
  is_suspended = false;
  last_active_at = some 5;
}

abbrev one_user : Database
one_user = record empty_database { users = record { rows = ali ∷ []; next_id = 2 } }

-- an empty text does not replace the old one
renamed :
    (get_or_create 900 (some "ali2") (some "") none 8 one_user).0
    ≡ ok (record ali { username = some "ali2"; last_active_at = some 8 })
unfolding get_or_create select change one_or_none
renamed = refl

alone : length (of_telegram 900 (some "ali2") none none 8 one_user one_user) ≤ 1
unfolding select
alone = omega arith

get_or_create-IsRegistered_example : IsRegistered 900 (some "ali2") none none 8 one_user
get_or_create-IsRegistered_example =
    get_or_create-IsRegistered 900 (some "ali2") none none 8 one_user alone
