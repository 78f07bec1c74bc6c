-- ===== src/Server/Auth.antt =====
-- rustend-server/src/auth.rs: the middleware that finds a request's client before its handler runs,
-- and store.rs, which says where the address stands.
use rustend.Prelude.{
  ◌==◌, leb, if◌then◌else◌, Bool, ◌&&◌, ◌||◌, ℕ, Option, none, some, List, [], ◌∷◌, ◌++◌,
}
use rustend.Core.Ids.{ClientId, UserId, Instant, Text}
use rustend.Core.Text.{split}
use rustend.Server.Error.{SqlError}
use rustend.Server.Sql.{Result, ok, err, Session, Fate, later, run_under}
use rustend.Server.Db.Clients.{upsert_client}
pub mod Registered

pub record AuthInfo : Type 0 where
  pub client_id : ClientId
  pub user_id : UserId
  pub roles : List Text

pub data AuthError : Type 0 where
  unauthenticated : AuthError
  internal : Text → AuthError

pub data IpSource : Type 0 where
  connect_info forwarded_for real_ip : IpSource

-- A response: the handler's, or a status without one.
pub data Response (B : Type 0) : Type 0 where
  reply : B → Response B
  failure : ℕ → Response B

-- Where `ServerStore` looks for the address, as its three builders leave it.
abbrev pub new_source : IpSource
new_source = connect_info

abbrev pub trust_forwarded_for : IpSource → IpSource
trust_forwarded_for _ = forwarded_for

abbrev pub trust_real_ip : IpSource → IpSource
trust_real_ip _ = real_ip

-- `str::trim`, on a header value, which is ASCII.
abbrev is_space : ℕ → Bool
is_space b = b == 32 || leb 9 b && leb b 13

abbrev trim_start : Text → Text
trim_start [] = []
trim_start (b ∷ s) = let rest = trim_start s in if is_space b then rest else b ∷ s

abbrev add_trimmed : ℕ → Text → Text
add_trimmed b [] = if is_space b then [] else b ∷ []
add_trimmed b (c ∷ s) = b ∷ c ∷ s

abbrev trim_end : Text → Text
trim_end [] = []
trim_end (b ∷ s) = add_trimmed b (trim_end s)

abbrev trim : Text → Text
trim s = trim_end (trim_start s)

abbrev first_piece : List Text → Option Text
first_piece [] = none
first_piece (piece ∷ _) = some piece

abbrev and_then {ℓ κ} : {A : Type ℓ} {B : Type κ} → Option A → (A → Option B) → Option B
and_then none f = none
and_then (some a) f = f a

-- What the middleware reads of a request: the peer's address, and two headers.
pub record Request (Ip HeaderValue : Type 0) : Type 0 where
  pub peer : Option Ip
  pub x_forwarded_for : Option HeaderValue
  pub x_real_ip : Option HeaderValue

-- `HeaderValue::to_str` and `IpAddr::from_str` are another library's.
module _ {Ip HeaderValue : Type 0} (to_str : HeaderValue → Option Text)
    (parse_ip : Text → Option Ip) where
  unfoldable pub extract_ip : Request Ip HeaderValue → IpSource → Option Ip
  extract_ip req connect_info = req.peer
  extract_ip req forwarded_for =
      and_then (and_then (and_then req.x_forwarded_for to_str) (λ s. first_piece (split 44 s)))
        (λ s. parse_ip (trim s))
  extract_ip req real_ip = and_then (and_then req.x_real_ip to_str) (λ s. parse_ip (trim s))

  -- The provider is the application's; `down` is the error of a broken connection; `inner` is the
  -- handler, which runs with the messages' further fates.
  module _ {V B : Type 0} (authenticate : Ip → Result AuthError AuthInfo) (down : SqlError)
      (inner : AuthInfo → List Fate → Session V → Response B × Session V) where
    -- What follows the upsert.
    abbrev registered :
        AuthInfo → List Fate → Result SqlError (Unit {0}) × Session V → Response B × Session V
    registered info fates (err e, s) = (failure 500, s)
    registered info fates (ok _, s) = inner info (later fates) s

    -- What follows `authenticate`.
    abbrev admitted :
        Instant → List Fate → Session V → Result AuthError AuthInfo → Response B × Session V
    admitted now fates s (err AuthError.unauthenticated) = (failure 401, s)
    admitted now fates s (err (AuthError.internal msg)) = (failure 500, s)
    admitted now fates s (ok info) =
        registered info fates
          (run_under down (upsert_client now info.client_id info.user_id) fates s)

    unfoldable pub call :
        Instant → IpSource → Request Ip HeaderValue → List Fate → Session V → Response B × Session V
    unfolding extract_ip
    call now source req fates s = elim (extract_ip req source) [
      | none ↦ (failure 401, s)
      | some ip ↦ admitted now fates s (authenticate ip)
    ]
