-- ===== src/Server/Auth/Registered.antt =====
-- auth.rs: a handler runs for an authenticated and registered client only, so a push through the
-- middleware keeps the tables valid.
use rustend.Prelude.{
  List, [], ◌∷◌, Option, true, some, ◌≤◌, ◌≡◌, inl, inr, refl, sym, ap, ◌∙◌, Option-cases,
}
use rustend.Core.Ids.{Instant, Text}
use rustend.Server.Error.{SqlError}
use rustend.Server.Tables.{Tables, has_client}
use rustend.Server.Tables.Valid.{IsValid}
use rustend.Server.Sql.{
  Result, ok, err, Session, idle, Fate, answered, lost, reply_lost, later, run_under,
}
use rustend.Server.Db.Transactions.{i64_max}
use rustend.Server.Db.Clients.{upsert_client}
use rustend.Server.Db.Clients.Statements.{with_client, has_client-with_client, with_client-IsValid}
use rustend.Server.Auth.{
  AuthInfo, AuthError, unauthenticated, internal, IpSource, Request, Response, reply, failure,
  extract_ip, call, admitted, registered,
}

abbrev pub Handler : Type 0 → Type 0 → Type 0
Handler V B = AuthInfo → List Fate → Session V → Response B × Session V

module _ {Ip HeaderValue V B : Type 0} (to_str : HeaderValue → Option Text)
    (parse_ip : Text → Option Ip) (authenticate : Ip → Result AuthError AuthInfo) (down : SqlError)
    (inner : Handler V B) where
  -- Registering a client ends in one of three ways, by the fate of its statement.
  registered-elim :
      (P : Response B × Session V → Type 0) (now : Instant) (info : AuthInfo) (fates : List Fate)
      (t : Tables V)
      → P (failure 500, idle t)
      → P (failure 500, idle (with_client now info.client_id info.user_id t))
      → P (inner info (later fates) (idle (with_client now info.client_id info.user_id t)))
      → P (
          registered to_str parse_ip authenticate down inner info fates
            (run_under down (upsert_client now info.client_id info.user_id) fates (idle t)))
  unfolding run_under upsert_client
  registered-elim P now info [] t lost_case late_case answered_case = answered_case
  registered-elim P now info (answered ∷ fates) t lost_case late_case answered_case = answered_case
  registered-elim P now info (lost ∷ fates) t lost_case late_case answered_case = lost_case
  registered-elim P now info (reply_lost ∷ fates) t lost_case late_case answered_case = late_case

  abbrev after_authenticate :
      Instant → List Fate → Tables V → Result AuthError AuthInfo → Response B × Session V
  after_authenticate now fates t =
      admitted to_str parse_ip authenticate down inner now fates (idle t)

  abbrev answer :
      Instant → IpSource → Request Ip HeaderValue → List Fate → Tables V → Response B × Session V
  answer now source req fates t =
      call to_str parse_ip authenticate down inner now source req fates (idle t)

  abbrev Explained : List Fate → Result AuthError AuthInfo → Response B × Session V → Type 0
  Explained fates r x =
      (info : AuthInfo) × (u : Tables V) × (r ≡ ok info)
      × (has_client info.client_id u.clients ≡ true)
      × (x ≡ inner info (later fates) (idle u))

  admitted-reply :
      (now : Instant) (fates : List Fate) (t : Tables V) (b : B) (r : Result AuthError AuthInfo)
      → (after_authenticate now fates t r).0 ≡ reply b
      → Explained fates r (after_authenticate now fates t r)
  admitted-reply now fates t b (err unauthenticated) h = cc
  admitted-reply now fates t b (err (internal msg)) h = cc
  admitted-reply now fates t b (ok info) h =
      registered-elim (λ x. x.0 ≡ reply b → Explained fates (ok info) x) now info fates t (λ q. cc)
        (λ q. cc)
        (λ _. (
          info,
          with_client now info.client_id info.user_id t,
          refl,
          has_client-with_client now info.client_id info.user_id t,
          refl,
        ))
        h

  -- A handler's response is given only to a client that the provider knows by the request's address,
  -- and only by a run of the handler with what the provider said, once the client is registered.
  pub call-reply :
      (now : Instant) (source : IpSource) (req : Request Ip HeaderValue) (fates : List Fate)
      (t : Tables V) (b : B)
      → (answer now source req fates t).0 ≡ reply b
      → (ip : Ip) × (info : AuthInfo) × (u : Tables V) × (extract_ip to_str parse_ip req source
          ≡ some ip)
        × (authenticate ip ≡ ok info)
        × (has_client info.client_id u.clients ≡ true)
        × (answer now source req fates t ≡ inner info (later fates) (idle u))
  unfolding call
  call-reply now source req fates t b h =
      elim (Option-cases (extract_ip to_str parse_ip req source)) [
        | inl absent ↦ cc
        | inr (ip, found) ↦
            let whole : answer now source req fates t
                ≡ after_authenticate now fates t (authenticate ip) =
              rw (call, found) refl in
            let (info, u, known, stored, ran) =
              admitted-reply now fates t b (authenticate ip) (ap (λ x. x.0) (sym whole) ∙ h) in
            (ip, info, u, found, known, stored, whole ∙ ran)
      ]

  -- `inner` keeps valid tables valid for a registered client.
  abbrev pub Keeps : Type 0
  Keeps =
      (info : AuthInfo) (fs : List Fate) (u : Tables V)
      → IsValid u
      → has_client info.client_id u.clients ≡ true
      → u.transactions_id_seq ≤ i64_max
      → IsValid (inner info fs (idle u)).1.tables

  admitted-IsValid :
      Keeps
      → (now : Instant) (fates : List Fate) (t : Tables V) → IsValid t
      → t.transactions_id_seq ≤ i64_max
      → (r : Result AuthError AuthInfo) → IsValid (after_authenticate now fates t r).1.tables
  admitted-IsValid keeps now fates t v room (err unauthenticated) = v
  admitted-IsValid keeps now fates t v room (err (internal msg)) = v
  admitted-IsValid keeps now fates t v room (ok info) =
      let kept : IsValid (with_client now info.client_id info.user_id t) =
        with_client-IsValid now info.client_id info.user_id t v in
      registered-elim (λ x. IsValid x.1.tables) now info fates t v kept
        (keeps info (later fates) (with_client now info.client_id info.user_id t) kept
          (has_client-with_client now info.client_id info.user_id t) room)

  pub call-IsValid :
      Keeps
      → (now : Instant) (source : IpSource) (req : Request Ip HeaderValue) (fates : List Fate)
        (t : Tables V)
      → IsValid t
      → t.transactions_id_seq ≤ i64_max
      → IsValid (answer now source req fates t).1.tables
  unfolding call
  call-IsValid keeps now source req fates t v room =
      elim (Option-cases (extract_ip to_str parse_ip req source)) [
        | inl absent ↦ rw (call, absent) v
        | inr (ip, found) ↦
            rw (call, found) (admitted-IsValid keeps now fates t v room (authenticate ip))
      ]
