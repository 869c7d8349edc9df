-- ===== src/Users/Registration.antt =====
-- A Telegram user has one row.
use trelgream_self_userbot.Prelude.{
  ℕ, ◌≡◌, ◌≤◌, refl, ap, ◌∙◌, String, Bool, Option, some, List, [], ◌∷◌, ==_refl, length, arith,
}
use trelgream_self_userbot.Core.Exec.{ok, continue}
use trelgream_self_userbot.Database.Table.{select, change, insert, one_or_none}
use trelgream_self_userbot.Database.Table.Find.{select-append}
use trelgream_self_userbot.Database.Table.Keyed.{by_id}
use trelgream_self_userbot.Database.Models.Users.{User}
use trelgream_self_userbot.Database.State.{Database}
use trelgream_self_userbot.Users.{
  has_telegram_id, get_by_telegram_id, get_or_create, new_user, refreshed, or_new_user,
}

-- a change that does not touch the test of a query
select-change_both :
    (test p : User → Bool) (f : User → User) (rs : List User)
    → ((u : User) → test (f u) ≡ test u)
    → select test (change p f rs) ≡ change p f (select test rs)
unfolding select change
select-change_both test p f [] h = refl
select-change_both test p f (u ∷ rs) h = ground (arith, h u, select-change_both test p f rs h)

module _ (telegram_id : ℕ) (username first_name last_name : Option String) (now : ℕ)
    (db : Database) where
  abbrev pub of_telegram : Database → List User
  of_telegram d = select (has_telegram_id telegram_id) d.users.rows

  -- The call returns the user who is then found under the Telegram id, and that user alone has it.
  pub record IsRegistered : Type 0 where
    pub user : User
    pub after : Database
    pub run : get_or_create telegram_id username first_name last_name now db ≡ (ok user, after)
    pub only : of_telegram after ≡ user ∷ []
    pub lookup : get_by_telegram_id telegram_id after ≡ (ok (some user), after)

  abbrev fresh : ℕ → User
  fresh i = new_user telegram_id username first_name last_name now i

  abbrev seen : User → User
  seen u = refreshed username first_name last_name now u

  registered : (l : List User) → of_telegram db ≡ l → length l ≤ 1 → IsRegistered
  unfolding get_or_create get_by_telegram_id insert one_or_none select change
  registered [] e h =
      let user = fresh db.users.next_id in
      let after = record db { users = insert fresh db.users } in
      let only : of_telegram after ≡ user ∷ [] =
        select-append (has_telegram_id telegram_id) db.users.rows (user ∷ [])
        ∙ rw (e, ==_refl telegram_id) in
      record {
        user = user;
        after = after;
        run =
            ap
              (λ l.
                continue (one_or_none l) (or_new_user telegram_id username first_name last_name now)
                  db)
              e;
        only = only;
        lookup = ap (λ l. (one_or_none l, after)) only;
      }
  registered (u ∷ []) e h =
      let user = seen u in
      let after = record db {
        users = record db.users { rows = change (by_id (λ r. r.id) u.id) seen db.users.rows };
      } in
      let only : of_telegram after ≡ user ∷ [] =
        select-change_both (has_telegram_id telegram_id) (by_id (λ r. r.id) u.id) seen db.users.rows
          (λ r. refl)
        ∙ ap (change (by_id (λ r. r.id) u.id) seen) e
        ∙ rw (==_refl u.id) in
      record {
        user = user;
        after = after;
        run =
            ap
              (λ l.
                continue (one_or_none l) (or_new_user telegram_id username first_name last_name now)
                  db)
              e;
        only = only;
        lookup = ap (λ l. (one_or_none l, after)) only;
      }
  registered (u ∷ v ∷ l) e h = ground arith

  -- If at most one user has the Telegram id, then `get_or_create` returns, and afterwards the user that
  -- it returned, and no other, has it and is found under it.
  pub get_or_create-IsRegistered : length (of_telegram db) ≤ 1 → IsRegistered
  get_or_create-IsRegistered h = registered (of_telegram db) refl h
