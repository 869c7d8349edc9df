-- ===== src/Userbots/Model.antt =====
-- The table that `UserbotRepository` of app/userbots/repository.py is mapped to.
use trelgream_self_userbot.Prelude.{some, refl, true}
use trelgream_self_userbot.Database.Models.Userbots.{Userbot}
use trelgream_self_userbot.Database.Repository.{Model}

abbrev pub userbot_model : Model Userbot
userbot_model = record {
  id = λ r. r.id;
  has_tenant = true;
  tenant = λ r. some r.user_id;
  table = λ db. db.userbots;
  with_table = λ t db. record db { userbots = t };
  table-with_table = λ t db. refl;
}
