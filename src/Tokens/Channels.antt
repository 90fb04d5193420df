-- ===== src/Tokens/Channels.antt =====
-- `HttpInterceptor` and `WSInterceptor`, api/interceptor: the channels (model/mapper.go) that may
-- call the API, the signature of a request, and the user that its token names. The digest
-- (crypto/sha256, in hexadecimal) is an argument.
use tradeverse_api.Prelude.{
  ℕ, String, Bool, true, false, not, ◌&&◌, ◌||◌, List, [], ◌∷◌, ◌++◌, ltb, ◌==◌, length,
  bytes_equal, codes, if◌then◌else◌, Option, none, some, Exit, next, exit, ◌>>◌, return_if, answer,
}
use tradeverse_api.Prelude.Integers.{ℤ, sub_int, above}
use tradeverse_api.Codes
use tradeverse_api.Web.{Clock, Time, unix}
use tradeverse_api.Tokens.{Bytes, Cipher, decrypt}
use tradeverse_api.Tokens.Numerals.{bar, split, parse_int}
use tradeverse_api.Tokens.Interceptors.{Gate, expired}

pub record SysChannel : Type 0 where
  pub id : ℕ
  pub app_id : Bytes
  pub app_key : Bytes
  pub status : Bytes
  pub chan : Bytes
  pub sig_method : Bytes
  pub create_time : Time
  pub update_time : Time

-- `HeaderParam`, api/common/gen.go
pub record HeaderParam : Type 0 where
  pub app_id : Bytes
  pub auth_token : Bytes
  pub ts : Bytes
  pub ver : Bytes
  pub request_id : Bytes
  pub x_auth : Bytes

-- `Join`
abbrev pub join : HeaderParam → Bytes
join h = h.app_id ++ (h.request_id ++ (h.ts ++ h.ver))

-- `parse`: the headers by their names.
abbrev pub parse : (String → Bytes) → HeaderParam
parse header = record {
  app_id = header "APPID";
  auth_token = header "SIG";
  ts = header "TS";
  ver = header "VER";
  request_id = header "REQUESTID";
  x_auth = header "XAUTH";
}

-- `cacheKeys` and `cacheValid`, which the two interceptors share.
pub record Cache : Type 0 where
  pub keys : List SysChannel
  pub valid : ℕ

-- `queryKeys`, with what the query for the channel finds.
unfoldable pub query_keys : (String → Option (List SysChannel)) → Clock → Cache → String → Cache
query_keys find clock cache channel =
    if ltb 0 (length cache.keys)
      && not (above (sub_int (ℤ.pos (unix (clock 0))) (ℤ.pos cache.valid)) 60)
    then cache
    else elim (find channel) [
      | none ↦ cache
      | some result ↦ record { keys = result; valid = unix (clock 1) }
    ]

-- The last channel with the app id.
unfoldable pub target_channel : Bytes → List SysChannel → Option SysChannel
target_channel app_id [] = none
target_channel app_id (v ∷ vs) = elim (target_channel app_id vs) [
  | some t ↦ some t
  | none ↦ if bytes_equal v.app_id app_id then some v else none
]

-- What a request that goes on has in its context.
pub record Context : Type 0 where
  pub app_id : Bytes
  pub request_id : Bytes
  pub ts : Bytes
  pub headers : HeaderParam
  -- "user_id" and "user_wallet"
  pub user : Option (Bytes × Bytes)

module _ (sha256 : Bytes → Bytes) where
  -- `SysChannel.Verify`, with the code of the refusal
  unfoldable pub verify : SysChannel → Bytes → Bytes → Bool × ℕ
  verify t text sig =
      if not (bytes_equal t.sig_method (codes "SHA256"))
      then (false, Codes.sig_method_unsupported)
      else if length text == 0 || length sig == 0
      then (false, Codes.token_failed)
      else if not (bytes_equal (sha256 (text ++ t.app_key)) sig)
      then (false, Codes.token_failed)
      else (true, Codes.success)

  -- The channel and the signature, as both interceptors check them.
  checked_channel : Clock → String → List SysChannel → HeaderParam → Exit (Gate Context) (Unit {0})
  unfolding verify target_channel
  checked_channel clock invalid keys hp = elim (target_channel hp.app_id keys) [
    | none ↦ exit (Gate.aborted Codes.app_id_invalid invalid (unix (clock 2)))
    | some t ↦ return_if (not (verify t (join hp) hp.auth_token).0) (
        Gate.aborted (verify t (join hp) hp.auth_token).1 "sig or key params wrong or empty"
          (unix (clock 2)))
  ]

  module _ (cipher : Cipher) (clock : Clock) where
    user_fields : List Bytes → Option (Bytes × Bytes)
    unfolding expired
    user_fields (a ∷ b ∷ c ∷ d ∷ []) = elim (parse_int d) [
      | none ↦ none
      | some ts ↦ if expired (unix (clock 3)) ts then none else some (a, b)
    ]
    user_fields _ = none

    -- A token that is not in order is passed over.
    token_user : Bytes → Option (Bytes × Bytes)
    unfolding decrypt user_fields
    token_user x_auth = elim (decrypt cipher x_auth) [
      | none ↦ none
      | some token ↦ user_fields (split bar token)
    ]

    -- The token "123456" is user 1.
    http_user : Bytes → Option (Bytes × Bytes)
    unfolding token_user
    http_user x_auth =
        if bytes_equal x_auth (codes "123456")
        then some (codes "1", codes "0x0")
        else token_user x_auth

    abbrev pub context : HeaderParam → Option (Bytes × Bytes) → Context
    context hp user = record {
      app_id = hp.app_id;
      request_id = hp.request_id;
      ts = hp.ts;
      headers = hp;
      user = user;
    }

    unfoldable pub channel_gate :
        String → List SysChannel → HeaderParam → Option (Bytes × Bytes) → Gate Context
    unfolding checked_channel
    channel_gate invalid keys hp user =
        answer do checked_channel clock invalid keys hp; next (Gate.passed (context hp user))

    unfoldable pub http_interceptor :
        (String → Option (List SysChannel)) → Cache → (String → Bytes) → Gate Context × Cache
    unfolding query_keys channel_gate http_user
    http_interceptor find cache header =
        let cache' = query_keys find clock cache "http" in
        let hp = parse header in
        let gate = channel_gate "appid invalid" cache'.keys hp (http_user hp.x_auth) in
        (gate, cache')

    -- The query parameter "X-Token" comes first; `none` is a request that goes on with no context.
    unfoldable pub ws_interceptor :
        (String → Option (List SysChannel))
        → Cache
        → Bytes
        → (String → Bytes)
        → Option (Gate Context) × Cache
    unfolding query_keys channel_gate token_user
    ws_interceptor find cache x_token header =
        let cache' = query_keys find clock cache "ws" in
        let hp = parse header in
        let gate = channel_gate "app_id invalid" cache'.keys hp (token_user hp.x_auth) in
        if bytes_equal x_token (codes "123456") then (none, cache) else (some gate, cache')
