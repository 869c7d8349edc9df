-- ===== src/Telegram/ClientFactory.antt =====
-- `parse_proxy` of app/telegram/client_factory.py. `urlparse` is a parameter.
use trelgream_self_userbot.Prelude.{ℕ, ◌||◌, Option, none, some, ◌==◌, if◌then◌else◌}
use trelgream_self_userbot.Prelude.Text.{Text, codes, starts_with, contains, text_eq}
use trelgream_self_userbot.Prelude.{[], ◌∷◌, ◌++◌}

-- the attributes of what `urlparse` returns; its port is read without an exception
pub record Url : Type 0 where
  pub scheme : Text
  pub hostname : Option Text
  pub port : Option ℕ
  pub username : Option Text
  pub password : Option Text

pub data ProxyType : Type 0 where
  socks5 : ProxyType
  http : ProxyType

-- the tuple, with the user and the password if there is a user
pub record Proxy : Type 0 where
  pub type : ProxyType
  pub host : Text
  pub port : ℕ
  pub login : Option (Text × Text)

abbrev pub nonempty : Option Text → Option Text
nonempty none = none
nonempty (some []) = none
nonempty (some (c ∷ s)) = some (c ∷ s)

-- `parsed.password or ""`
abbrev pub or_empty : Option Text → Text
or_empty none = []
or_empty (some s) = s

-- `parsed.port or …`
abbrev pub port_or : Option ℕ → ℕ → ℕ
port_or none default = default
port_or (some p) default = if p == 0 then default else p

unfoldable pub proxy_type : (scheme : Text) → Option ProxyType
proxy_type scheme =
    if text_eq scheme (codes "socks5")
      || text_eq scheme (codes "socks5h")
      || text_eq scheme (codes "socks")
    then some socks5
    else if text_eq scheme (codes "http") || text_eq scheme (codes "https")
    then some http
    else none

abbrev pub login_of : Url → Option (Text × Text)
login_of parsed = elim (nonempty parsed.username) [
  | none ↦ none
  | some user ↦ some (user, or_empty parsed.password)
]

abbrev pub proxy_of : Url → (scheme : Text) → Option Text → Option ProxyType → Option Proxy
proxy_of parsed scheme none type = none
proxy_of parsed scheme (some host) none = none
proxy_of parsed scheme (some host) (some type) = some (record {
  type = type;
  host = host;
  port = port_or parsed.port (if starts_with (codes "socks") scheme then 1080 else 8080);
  login = login_of parsed;
})

-- `lower` is `str.lower`
unfoldable pub parse_proxy :
    (lower : Text → Text) (urlparse : Text → Url) → (url : Text) → Option Proxy
unfolding proxy_type starts_with contains
parse_proxy lower urlparse [] = none
parse_proxy lower urlparse (c ∷ url) =
    let parsed =
      urlparse
        (if contains (codes "://") (c ∷ url) then c ∷ url else codes "socks5://" ++ c ∷ url) in
    let scheme = lower parsed.scheme in
    proxy_of parsed scheme (nonempty parsed.hostname) (proxy_type scheme)
