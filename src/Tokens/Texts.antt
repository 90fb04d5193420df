-- ===== src/Tokens/Texts.antt =====
-- The texts that the logins of api/http/controller/preauth encrypt.
use tradeverse_api.Prelude.{ℕ, ◌∷◌, ◌++◌}
use tradeverse_api.Tokens.{Bytes}
use tradeverse_api.Tokens.Numerals.{bar, comma, format_uint}

-- "%d|%d|%d|%d" of the user, the provider, the kind of the login and the expiry
unfoldable pub user_token : ℕ → ℕ → ℕ → ℕ → Bytes
user_token main_id provider_id login_type expire_ts =
    format_uint main_id
    ++ (bar ∷ format_uint provider_id
        ++ (bar ∷ format_uint login_type ++ (bar ∷ format_uint expire_ts)))

-- "%d|%d" of the developer and the expiry
unfoldable pub dev_token : ℕ → ℕ → Bytes
dev_token dev_id expire_ts = format_uint dev_id ++ (bar ∷ format_uint expire_ts)

-- "%d,%d" of the user and the time, as `Verify` writes it
unfoldable pub verify_token : ℕ → ℕ → Bytes
verify_token user_id now = format_uint user_id ++ (comma ∷ format_uint now)
