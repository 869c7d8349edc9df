-- ===== src/Userbots/Status.antt =====
-- What `UPDATE userbots SET status = … WHERE user_id = … AND status != …` does to the userbots.
use trelgream_self_userbot.Prelude.{
  ℕ, ◌≡◌, refl, true, not, ◌&&◌, List, [], ◌∷◌, map, ◌==◌, if◌then◌else◌, arith,
}
use trelgream_self_userbot.Database.Table.{change}
use trelgream_self_userbot.Database.Models.Userbots.{Userbot, UserbotStatus, same_status, place}

place-injective : (a b : UserbotStatus) → place a ≡ place b → a ≡ b
place-injective a b h = ground arith

pub same_status-eq : (a b : UserbotStatus) → same_status a b ≡ true → a ≡ b
same_status-eq a b h = place-injective a b (ground arith)

-- the userbots of `user_id` with `status`, the others as they were
abbrev pub with_status : ℕ → UserbotStatus → List Userbot → List Userbot
with_status user_id status rows =
    map (λ b. if b.user_id == user_id then record b { status = status } else b) rows

pub change-with_status :
    (user_id : ℕ) (status : UserbotStatus) (rows : List Userbot)
    → change
        (λ b. b.user_id == user_id && not (same_status b.status status))
        (λ b. record b { status = status })
        rows
      ≡ with_status user_id status rows
unfolding change
change-with_status u st [] = refl
change-with_status u st (b ∷ rows) =
    ground (arith, change-with_status u st rows, same_status-eq b.status st)
