-- ===== src/Telegram/Samples.antt =====
-- Three proxies.
use trelgream_self_userbot.Prelude.{◌≡◌, refl, none, some, []}
use trelgream_self_userbot.Prelude.Text.{Text, codes, text_eq}
use trelgream_self_userbot.Telegram.ClientFactory.{Url, parse_proxy, socks5, http}

abbrev same : Text → Text
same s = s

-- what `urlparse` makes of an address with this scheme, a host and no port
abbrev parsed : Text → Text → Url
parsed scheme url = record {
  scheme = scheme;
  hostname = some (codes "h");
  port = none;
  username = some [];
  password = none;
}

no_proxy : parse_proxy same (parsed (codes "http")) [] ≡ none
unfolding parse_proxy
no_proxy = refl

socks_port :
    parse_proxy same (parsed (codes "socks5h")) (codes "h")
    ≡ some (record { type = socks5; host = codes "h"; port = 1080; login = none })
unfolding parse_proxy text_eq
socks_port = refl

http_port :
    parse_proxy same (parsed (codes "https")) (codes "https://h")
    ≡ some (record { type = http; host = codes "h"; port = 8080; login = none })
unfolding parse_proxy text_eq
http_port = refl

unknown_scheme : parse_proxy same (parsed (codes "ftp")) (codes "ftp://h") ≡ none
unfolding parse_proxy text_eq
unknown_scheme = refl
