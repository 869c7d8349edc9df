-- ===== src/Userbots/Runtime/Handlers.antt =====
-- `UserbotRuntime.start` and `stop`: which handlers the client gets.
use trelgream_self_userbot.Prelude.{
  String, Bool, true, Option, none, some, List, [], ◌∷◌, ◌++◌, str_eq, if◌then◌else◌,
}
use trelgream_self_userbot.Core.Errors.{session_error}
use trelgream_self_userbot.Core.Exec.{Result, Exec, pure, lift, modify, require, ◌>>=◌, ◌>>◌}

-- the values of `_EVENT_BUILDERS`, and the builder of the callbacks
pub data Builder : Type 0 where
  new_message : Builder
  message_edited : Builder
  message_deleted : Builder
  callback_query : Builder

-- `HandlerSpec` of app/modules/base.py, with the name of its function
pub record HandlerSpec : Type 0 where
  pub func : String
  pub event_type : String
  pub pattern : Option String
  pub incoming : Bool
  pub outgoing : Bool

-- A call of `add_event_handler`. `none` is an argument that the builder is not given.
pub record Registration : Type 0 where
  pub owner : Option String
  pub func : String
  pub builder : Builder
  pub incoming : Option Bool
  pub outgoing : Option Bool
  pub pattern : Option String

-- the handlers of the client, and the keys of the modules that were made
pub record Running : Type 0 where
  pub handlers : List Registration
  pub modules : List String

unfoldable pub builder_of : String → Option Builder
builder_of event_type =
    if str_eq event_type "new_message"
    then some new_message
    else if str_eq event_type "edited_message"
    then some message_edited
    else if str_eq event_type "deleted_message"
    then some message_deleted
    else none

-- `if spec.pattern`
abbrev pub given : Option String → Option String
given none = none
given (some p) = if str_eq p "" then none else some p

abbrev pub outgoing_of : Option String → Bool → Bool
outgoing_of none outgoing = outgoing
outgoing_of (some p) outgoing = true

abbrev pub registration : (key : String) → HandlerSpec → Builder → Registration
registration key spec builder = record {
  owner = some key;
  func = spec.func;
  builder = builder;
  incoming = some spec.incoming;
  outgoing = some (outgoing_of (given spec.pattern) spec.outgoing);
  pattern = given spec.pattern;
}

abbrev pub registered : (key : String) → HandlerSpec → Option Builder → List Registration
registered key spec none = []
registered key spec (some builder) = registration key spec builder ∷ []

unfoldable pub registrations : (key : String) → List HandlerSpec → List Registration
unfolding builder_of
registrations key [] = []
registrations key (spec ∷ specs) =
    registered key spec (builder_of spec.event_type) ++ registrations key specs

-- the five handlers of the runtime's own
abbrev pub own :
    (func : String) → Builder → (incoming outgoing : Option Bool) → Option String → Registration
own func builder incoming outgoing pattern = record {
  owner = none;
  func = func;
  builder = builder;
  incoming = incoming;
  outgoing = outgoing;
  pattern = pattern;
}

abbrev pub own_handlers : List Registration
own_handlers =
    own "_handle_panel" new_message (some true) none (some "^/panel")
    ∷ own "_handle_panel" new_message none (some true) (some "^/panel")
    ∷ own "_handle_help" new_message (some true) none (some "^/help")
    ∷ own "_handle_help" new_message none (some true) (some "^/help")
    ∷ own "_handle_panel_callback" callback_query none none none
    ∷ []

-- a module class: its key, and what its `handlers()` returns
abbrev pub ModuleClass : Type 0
ModuleClass = String × List HandlerSpec

abbrev pub add_module : ModuleClass → Running → Running
add_module (key, specs) r = record {
  handlers = r.handlers ++ registrations key specs;
  modules = r.modules ++ key ∷ [];
}

abbrev pub add_modules : List ModuleClass → Running → Running
add_modules [] r = r
add_modules (cls ∷ classes) r = add_modules classes (add_module cls r)

-- The client's `connect` and `is_user_authorized`, and the modules' `on_start`, are parameters.
module _ (connect : Result (Unit {0})) (is_user_authorized : Result Bool)
    (on_start : String → Result (Unit {0})) where
  unfoldable pub start_each : List ModuleClass → Exec Running (Unit {0})
  start_each [] = pure tt
  start_each ((key, specs) ∷ classes) = do lift (on_start key); start_each classes

  unfoldable pub start : List ModuleClass → Exec Running (Unit {0})
  unfolding registrations start_each
  start classes = do
    lift connect
    authorized ← lift is_user_authorized
    require authorized session_error
    modify (add_modules classes)
    start_each classes
    modify (λ r. record r { handlers = r.handlers ++ own_handlers })
