-- ===== src/Tokens/Signed.antt =====
-- What lets a request through `HttpInterceptor`, and the cache that the two interceptors share.
use tradeverse_api.Prelude.{
  ◌+◌, ◌<◌, ◌≤◌, String, true, List, [], ◌∷◌, ◌++◌, length, codes, bytes_equal, eq_of_bytes_equal,
  Option, some, Option-cases, Bool-cases, inl, inr, ◌≡◌, refl, sym, subst, arith,
}
use mathlib.Core.List.{Memᴰ}
use tradeverse_api.Web.{Clock, unix}
use tradeverse_api.Tokens.{Bytes, Cipher}
use tradeverse_api.Tokens.Interceptors.{Gate}
use tradeverse_api.Tokens.Channels.{
  SysChannel, Cache, Context, HeaderParam, context, channel_gate, join, parse, query_keys,
  target_channel, verify, http_interceptor,
}

first_channel :
    {app_id : Bytes} (v t : SysChannel) (vs : List SysChannel)
    → v ≡ t
    → v.app_id ≡ app_id
    → (t.app_id ≡ app_id) × Memᴰ t (v ∷ vs)
first_channel {app_id} v t vs e h =
    subst (λ x. (x.app_id ≡ app_id) × Memᴰ x (v ∷ vs)) e (h, Memᴰ.head refl)

later_channel :
    {app_id : Bytes} {vs : List SysChannel} (v u t : SysChannel)
    → u ≡ t
    → (u.app_id ≡ app_id) × Memᴰ u vs
    → (t.app_id ≡ app_id) × Memᴰ t (v ∷ vs)
later_channel {app_id} {vs} v u t e h =
    subst (λ x. (x.app_id ≡ app_id) × Memᴰ x (v ∷ vs)) e (h.0, Memᴰ.tail h.1)

target_channel-Memᴰ :
    (app_id : Bytes) (keys : List SysChannel) (t : SysChannel)
    → target_channel app_id keys ≡ some t
    → (t.app_id ≡ app_id) × Memᴰ t keys
unfolding target_channel
target_channel-Memᴰ app_id [] t e = ground arith
target_channel-Memᴰ app_id (v ∷ vs) t e = elim (Option-cases (target_channel app_id vs)) [
  | inl absent ↦ elim (Bool-cases (bytes_equal v.app_id app_id)) [
    | inl same ↦ first_channel v t vs (ground arith) (eq_of_bytes_equal v.app_id app_id same)
    | inr other ↦ ground arith
  ]
  | inr (u, found) ↦ later_channel v u t (ground arith) (target_channel-Memᴰ app_id vs u found)
]

-- The channel of the request is one of those known, and has signed its headers.
abbrev pub Signed : (Bytes → Bytes) → List SysChannel → Gate Context → Type 0
Signed sha256 keys (Gate.aborted c m ts) = Unit
Signed sha256 keys (Gate.passed ctx) =
    (t : SysChannel) × Memᴰ t keys
    × (t.app_id ≡ ctx.headers.app_id)
    × (t.sig_method ≡ codes "SHA256")
    × (sha256 (join ctx.headers ++ t.app_key) ≡ ctx.headers.auth_token)

accepted-Signed :
    (sha256 : Bytes → Bytes) (keys : List SysChannel) (ctx : Context) (t : SysChannel)
    → (t.app_id ≡ ctx.headers.app_id) × Memᴰ t keys
    → (verify sha256 t (join ctx.headers) ctx.headers.auth_token).0 ≡ true
    → Signed sha256 keys (Gate.passed ctx)
unfolding verify
accepted-Signed sha256 keys ctx t (named, listed) ok =
    let hp = ctx.headers in
    let known = eq_of_bytes_equal t.sig_method (codes "SHA256") in
    let same = eq_of_bytes_equal (sha256 (join hp ++ t.app_key)) hp.auth_token in
    (t, listed, named, ground arith, ground arith)

gate_open :
    (sha256 : Bytes → Bytes) (cipher : Cipher) (clock : Clock) (invalid : String)
    (keys : List SysChannel) (hp : HeaderParam) (user : Option (Bytes × Bytes)) (t : SysChannel)
    → target_channel hp.app_id keys ≡ some t
    → (verify sha256 t (join hp) hp.auth_token).0 ≡ true
    → channel_gate sha256 cipher clock invalid keys hp user
      ≡ Gate.passed (context sha256 cipher clock hp user)
unfolding channel_gate
gate_open sha256 cipher clock invalid keys hp user t found ok = ground arith

channel_gate-Signed :
    (sha256 : Bytes → Bytes) (cipher : Cipher) (clock : Clock) (invalid : String)
    (keys : List SysChannel) (hp : HeaderParam) (user : Option (Bytes × Bytes))
    → Signed sha256 keys (channel_gate sha256 cipher clock invalid keys hp user)
unfolding channel_gate
channel_gate-Signed sha256 cipher clock invalid keys hp user =
    elim (Option-cases (target_channel hp.app_id keys)) [
      | inl absent ↦ ground arith
      | inr (t, found) ↦ elim (Bool-cases (verify sha256 t (join hp) hp.auth_token).0) [
        | inl ok ↦
            subst (Signed sha256 keys)
              (sym (gate_open sha256 cipher clock invalid keys hp user t found ok))
              (accepted-Signed sha256 keys (context sha256 cipher clock hp user) t
                (target_channel-Memᴰ hp.app_id keys t found) ok)
        | inr refused ↦ ground arith
      ]
    ]

module _ (sha256 : Bytes → Bytes) (cipher : Cipher) (find : String → Option (List SysChannel)) where
  -- A request goes on past `HttpInterceptor` only if a channel that the cache holds after the query
  -- has its app id, signs with SHA256, and the signature of its headers is the digest of the headers
  -- with the key of the channel.
  pub http_interceptor-Signed :
      (clock : Clock) (cache : Cache) (header : String → Bytes)
      → let answer = http_interceptor sha256 cipher clock find cache header in
        Signed sha256 answer.1.keys answer.0
  unfolding http_interceptor
  http_interceptor-Signed clock cache header =
      channel_gate-Signed sha256 cipher clock "appid invalid"
        (query_keys find clock cache "http").keys (parse header) _

module _ (find : String → Option (List SysChannel)) where
  -- A websocket that comes within a minute of the last query, made for the requests of the other
  -- middleware, is checked against the channels that were found for "http", not for "ws".
  pub cache_shared :
      (clock clock' : Clock) (cache : Cache) (keys : List SysChannel)
      → cache.keys ≡ []
      → find "http" ≡ some keys
      → 0 < length keys
      → unix (clock 1) ≤ unix (clock' 0)
      → unix (clock' 0) ≤ unix (clock 1) + 60
      → query_keys find clock' (query_keys find clock cache "http") "ws"
        ≡ record { keys = keys; valid = unix (clock 1) }
  unfolding query_keys
  cache_shared clock clock' cache keys e f pos later soon = ground arith
