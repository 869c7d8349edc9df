-- ===== src/Userbots/Runtime/Panel.antt =====
-- What the buttons of the panel can change.
use trelgream_self_userbot.Prelude.{
  ℕ, ◌≤◌, ◌≡◌, refl, sym, subst, String, Bool, true, false, Option, none, some, List, [], ◌∷◌, ◌==◌,
  if◌then◌else◌, Bool-cases, inl, inr, arith, ==_iff, ◌⊎◌, ◌∙◌,
}
use trelgream_self_userbot.Prelude.Text.{Text, codes, starts_with, text_eq}
use trelgream_self_userbot.Prelude.Int.{ℤ, pos, negsuc}
use trelgream_self_userbot.Core.Errors.{Exception, integrity_error}
use trelgream_self_userbot.Core.Exec.{Result, ok, err, Exec, continue, pure, raise, ◌>>=◌, ◌>>◌}
use trelgream_self_userbot.Core.Messages.{Raw}
use trelgream_self_userbot.Database.Table.{select, change}
use trelgream_self_userbot.Database.Table.Keyed.{by_id, IsKeyed}
use trelgream_self_userbot.Database.Models.Billing.{Plan, Subscription}
use trelgream_self_userbot.Database.Models.Modules.{UserModule}
use trelgream_self_userbot.Database.State.{Database}
use trelgream_self_userbot.Billing.Repositories.{active_for_user}
use trelgream_self_userbot.Modules.Manager
use trelgream_self_userbot.Modules.Manager.Limit.{count, enable_within}
use trelgream_self_userbot.Modules.Registry.{ModuleMetadata}
use trelgream_self_userbot.Userbots.Runtime

count-disabled :
    (user_id i : ℕ) (rows : List UserModule)
    → count user_id (change (by_id (λ u. u.id) i) (Manager.with_enabled false) rows)
      ≤ count user_id rows
unfolding select change
count-disabled user_id i [] = omega arith
count-disabled user_id i (u ∷ rows) = ground (arith, count-disabled user_id i rows)

state-continue :
    {S A B : Type 0} (f : A → B) (r : Result A) (s : S) → (continue r (λ a. pure (f a)) s).1 ≡ s
state-continue f (ok a) s = refl
state-continue f (err e) s = refl

state-pure :
    {S A B : Type 0} (x : Exec S A) (f : A → B) (s : S) → ((x >>= λ a. pure (f a)) s).1 ≡ (x s).1
state-pure x f s = state-continue f (x s).0 (x s).1

-- what comes after the commit leaves the database
database-restart :
    {A : Type 0} (send : Option (List Raw → List Raw)) (r : Result A) (w : Runtime.World)
    → (continue r (λ a. Runtime.request_restart send >> pure a) w).1.database ≡ w.database
database-restart none (ok a) w = refl
database-restart (some f) (ok a) w = refl
database-restart send (err e) w = refl

-- a session that ends with an exception is not committed
committed-raise :
    {A : Type 0} (B : Type 0) (e : Exception) (r : Result A) (db : Database) (w : Runtime.World)
    → let c = continue r (λ a. raise {A = B} e) db in (Runtime.committed c.0 c.1 w).1 ≡ w
committed-raise B e (ok a) db w = refl
committed-raise B e (err f) db w = refl

-- The answer to a press, by what `get_me` does: nothing on an exception, and a refusal for anyone but
-- the owner of the account.
abbrev IsAnswered : Result ℕ → ℕ → Runtime.World → Result Runtime.Shown × Runtime.World → Type 0
IsAnswered (err e) query_user_id w r = r ≡ (ok Runtime.nothing, w)
IsAnswered (ok me) query_user_id w r = (query_user_id ≡ me) ⊎ (r ≡ (ok Runtime.refused, w))

module _ (user_id : ℕ) (plan : Plan) where
  -- no more modules are enabled than the plan allows
  abbrev Fits : Database → Type 0
  Fits db = Manager.enabled_count user_id db ≤ plan.max_modules

  module _ (module_id : ℕ) (db : Database) (fits : Fits db) where
    Fits-disabled :
        (r : Result (Option UserModule)) → Fits (continue r Manager.disable_instance db).1
    unfolding Manager.enabled_count
    Fits-disabled (ok none) = fits
    Fits-disabled (ok (some u)) =
        omega (arith, count-disabled user_id u.id db.user_modules.rows, fits)
    Fits-disabled (err e) = fits

    Fits-switched :
        (r : Result (Option UserModule))
        → Fits (Manager.enable user_id module_id db).1
        → Fits
            (continue r
              (λ um.
                if Runtime.is_on um
                then Manager.disable user_id module_id >> pure false
                else Manager.enable user_id module_id >> pure true)
              db).1
    unfolding Manager.disable Manager.instance_of
    Fits-switched (err e) h = fits
    Fits-switched (ok um) h = elim (Bool-cases (Runtime.is_on um)) [
      | inl e ↦ rw e (
          subst Fits (sym (state-pure (Manager.disable user_id module_id) (λ u. false) db))
            (Fits-disabled (Manager.instance_of user_id module_id db).0))
      | inr e ↦
          rw e (subst Fits (sym (state-pure (Manager.enable user_id module_id) (λ u. true) db)) h)
    ]

  Fits-committed :
      {A : Type 0} (r : Result A) (db : Database) (w : Runtime.World)
      → Fits db
      → Fits w.database
      → Fits (Runtime.committed r db w).1.database
  Fits-committed (ok a) db w h k = h
  Fits-committed (err e) db w h k = k

  module _ (send : Option (List Raw → List Raw)) (w : Runtime.World)
      (keyed : IsKeyed (λ u. u.id) w.database.user_modules) (active : Option Subscription)
      (subscribed : active_for_user user_id w.database ≡ (ok active, w.database))
      (of_plan : Manager.plan_of active w.database ≡ some plan) (fits : Fits w.database) where
    Fits-toggle_module :
        (module_id : ℕ) → Fits (Runtime.toggle_module send user_id module_id w).1.database
    unfolding Runtime.toggle_module Runtime.switch Manager.instance_of
    Fits-toggle_module module_id =
        let enabled =
          enable_within user_id module_id w.database keyed active plan subscribed of_plan fits in
        let r = (Manager.instance_of user_id module_id w.database).0 in
        let switched = Fits-switched module_id w.database fits r enabled in
        let s = Runtime.switch user_id module_id w.database in
        let c = Runtime.committed s.0 s.1 w in
        subst Fits (sym (database-restart send c.0 c.1)) (Fits-committed s.0 s.1 w switched fits)

    toggle_negative-keeps :
        ((Runtime.toggle_negative user_id >>= λ b. pure (Runtime.toggled b)) w).1 ≡ w
    unfolding Runtime.toggle_negative
    toggle_negative-keeps =
        let checked = Manager.check_limit user_id w.database in
        state-pure (Runtime.toggle_negative user_id) Runtime.toggled w
        ∙ committed-raise Bool integrity_error checked.0 checked.1 w

    Fits-toggle_parsed :
        {ModuleClass : Type 0} (metadata : ModuleClass → ModuleMetadata)
        (registry : List (String × ModuleClass)) (parse : Text → Option ℤ)
        (category_of : Text → String) (o : Option ℤ)
        → Fits
            (Runtime.toggle_parsed metadata registry parse send user_id category_of o w).1.database
    Fits-toggle_parsed metadata registry parse category_of none = fits
    Fits-toggle_parsed metadata registry parse category_of (some (negsuc n)) =
        subst (λ v. Fits v.database) (sym toggle_negative-keeps) fits
    Fits-toggle_parsed metadata registry parse category_of (some (pos module_id)) =
        subst (λ v. Fits v.database)
          (sym (state-pure (Runtime.toggle_module send user_id module_id) Runtime.toggled w))
          (Fits-toggle_module module_id)

    Fits-if :
        {A : Type 0} (b : Bool) (x y : Exec Runtime.World A)
        → Fits (x w).1.database
        → Fits (y w).1.database
        → Fits ((if b then x else y) w).1.database
    Fits-if true x y h k = h
    Fits-if false x y h k = k

    module _ {ModuleClass : Type 0} (metadata : ModuleClass → ModuleMetadata)
        (registry : List (String × ModuleClass)) (parse : Text → Option ℤ)
        (category_of : Text → String) where
      Fits-press :
          (pressed : Text)
          → Fits
              (Runtime.press metadata registry parse send user_id category_of pressed w).1.database
      unfolding Runtime.press
      Fits-press pressed =
          let toggles =
            Fits-toggle_parsed metadata registry parse category_of
              (parse (Runtime.after_colon pressed)) in
          Fits-if (text_eq pressed (codes "ub_modules")) _ _ fits (
            Fits-if (text_eq pressed (codes "ub_back")) _ _ fits (
              Fits-if (starts_with (codes "ub_cat:") pressed) _ _ fits (
                Fits-if (starts_with (codes "ub_toggle:") pressed) _ _ toggles (
                  Fits-if (text_eq pressed (codes "ub_stats")) _ _ fits (
                    Fits-if (text_eq pressed (codes "ub_help")) _ _ fits (
                      Fits-if (text_eq pressed (codes "ub_central")) _ _ fits
                        (Fits-if (starts_with (codes "ub_ni:") pressed) _ _ fits fits)))))))

      -- Let the user have one active subscription, to a plan that has a row, let no more of the user's
      -- modules be enabled than that plan allows, and let the keys of the user modules be distinct and
      -- below the next one. Then, whatever a press on the panel sends and whoever presses, the plan's
      -- limit holds after it too; a press of anyone but the owner of the account changes nothing and is
      -- refused; and if the client does not tell the owner, the press does nothing.
      pub handle_panel_callback_lem :
          (me : Result ℕ) (query_user_id : ℕ) (pressed : Text)
          → let r =
              Runtime.handle_panel_callback metadata registry parse send user_id category_of me
                query_user_id pressed w in
            Fits r.1.database × IsAnswered me query_user_id w r
      unfolding Runtime.handle_panel_callback
      handle_panel_callback_lem (err e) query_user_id pressed = (fits, refl)
      handle_panel_callback_lem (ok me) query_user_id pressed = (
        Fits-if (query_user_id == me) _ _ (Fits-press pressed) fits,
        elim (Bool-cases (query_user_id == me)) [
          | inl e ↦ inl ((==_iff query_user_id me).0 e)
          | inr e ↦ inr (rw e)
        ],
      )
