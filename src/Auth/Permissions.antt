-- ===== src/Auth/Permissions.antt =====
-- app/auth/permissions.py: the codes of the permissions, and the default roles. A set is a list of its
-- elements.
use trelgream_self_userbot.Prelude.{String, List, [], ◌∷◌, str_eq, if◌then◌else◌}

abbrev pub users_view : String
users_view = "users.view"

abbrev pub users_edit : String
users_edit = "users.edit"

abbrev pub users_suspend : String
users_suspend = "users.suspend"

abbrev pub payments_view : String
payments_view = "payments.view"

abbrev pub payments_approve : String
payments_approve = "payments.approve"

abbrev pub payments_reject : String
payments_reject = "payments.reject"

abbrev pub subscriptions_view : String
subscriptions_view = "subscriptions.view"

abbrev pub subscriptions_edit : String
subscriptions_edit = "subscriptions.edit"

abbrev pub userbots_view : String
userbots_view = "userbots.view"

abbrev pub userbots_start : String
userbots_start = "userbots.start"

abbrev pub userbots_stop : String
userbots_stop = "userbots.stop"

abbrev pub userbots_restart : String
userbots_restart = "userbots.restart"

abbrev pub modules_view : String
modules_view = "modules.view"

abbrev pub modules_manage : String
modules_manage = "modules.manage"

abbrev pub logs_view : String
logs_view = "logs.view"

abbrev pub settings_view : String
settings_view = "settings.view"

abbrev pub settings_edit : String
settings_edit = "settings.edit"

abbrev pub broadcast_send : String
broadcast_send = "broadcast.send"

abbrev pub admins_manage : String
admins_manage = "admins.manage"

abbrev pub support_manage : String
support_manage = "support.manage"

abbrev pub messages_view : String
messages_view = "messages.view"

-- in the order of the codes
abbrev pub all_permissions : List String
all_permissions =
    admins_manage ∷ broadcast_send ∷ logs_view ∷ messages_view ∷ modules_manage ∷ modules_view
    ∷ payments_approve ∷ payments_reject ∷ payments_view ∷ settings_edit ∷ settings_view
    ∷ subscriptions_edit ∷ subscriptions_view ∷ support_manage ∷ userbots_restart ∷ userbots_start
    ∷ userbots_stop ∷ userbots_view ∷ users_edit ∷ users_suspend ∷ users_view ∷ []

abbrev pub super_admin_permissions : List String
super_admin_permissions =
    users_view ∷ users_edit ∷ users_suspend ∷ payments_view ∷ payments_approve ∷ payments_reject
    ∷ subscriptions_view ∷ subscriptions_edit ∷ userbots_view ∷ userbots_start ∷ userbots_stop
    ∷ userbots_restart ∷ modules_view ∷ modules_manage ∷ logs_view ∷ settings_view ∷ settings_edit
    ∷ broadcast_send ∷ admins_manage ∷ support_manage ∷ []

abbrev pub admin_permissions : List String
admin_permissions =
    users_view ∷ users_edit ∷ payments_view ∷ payments_approve ∷ payments_reject
    ∷ subscriptions_view ∷ userbots_view ∷ userbots_start ∷ userbots_stop ∷ userbots_restart
    ∷ modules_view ∷ logs_view ∷ settings_view ∷ support_manage ∷ []

abbrev pub moderator_permissions : List String
moderator_permissions = users_view ∷ support_manage ∷ []

abbrev pub support_permissions : List String
support_permissions = subscriptions_view ∷ support_manage ∷ []

-- `DEFAULT_ROLE_PERMISSIONS.get(role, set())`
unfoldable pub default_permissions : String → List String
default_permissions role =
    if str_eq role "SUPER_ADMIN"
    then super_admin_permissions
    else if str_eq role "ADMIN"
    then admin_permissions
    else if str_eq role "MODERATOR"
    then moderator_permissions
    else if str_eq role "SUPPORT"
    then support_permissions
    else []

abbrev pub role_names : List String
role_names = "OWNER" ∷ "SUPER_ADMIN" ∷ "ADMIN" ∷ "MODERATOR" ∷ "SUPPORT" ∷ []
