-- ===== src/Accounts/Bearer.antt =====
-- api/security.py: `bearer_token`, from the cookie `cts_session` and the header `authorization`.
use crypto_trading_system.Accounts.{Crypto, Reply, Site, http_error, is_blank, reply, require_user}
use crypto_trading_system.Base.{
  [], if◌then◌else◌, leb, list_eq, map, nat_eq, not, option_eq, ℕ, ◌&&◌, ◌+◌, ◌==◌, ◌||◌, ◌∷◌,
}
use crypto_trading_system.Base.Text.{Text, codes, strip}
use crypto_trading_system.Database.{User}
use crypto_trading_system.Models.Common.{Timestamp}

abbrev pub lower_char : ℕ → ℕ
lower_char c = if leb 65 c && leb c 90 then c + 32 else c

-- `authorization.partition(" ")`: the scheme and the token.
unfoldable pub partition_space : Text → Text × Text
partition_space [] = ([], [])
partition_space (c ∷ s) =
    let rest = partition_space s in if c == 32 then ([], s) else (c ∷ rest.0, rest.1)

unfoldable pub header_token : Text × Text → Reply Text
header_token (scheme, token) =
    if not (map lower_char scheme == codes "bearer") || is_blank token
    then http_error 401
    else reply (strip token)

unfoldable pub bearer_token : Text → Text → Reply Text
bearer_token cookie authorization =
    if is_blank cookie then header_token (partition_space authorization) else reply (strip cookie)

unfoldable pub find_user : Crypto → Timestamp → Site → Reply Text → Reply (ℕ × User)
find_user c now site (http_error status) = http_error status
find_user c now site (reply token) = require_user c now token site

-- `require_user` of a request.
unfoldable pub authenticate : Crypto → Timestamp → Text → Text → Site → Reply (ℕ × User)
authenticate c now cookie authorization site =
    find_user c now site (bearer_token cookie authorization)
