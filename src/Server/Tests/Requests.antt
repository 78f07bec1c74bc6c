-- ===== src/Server/Tests/Requests.antt =====
-- The theorems on requests through the middleware and on files, on the small tables.
use rustend.Prelude.{ℕ, if◌then◌else◌, true, none, some, [], ◌∷◌, ◌≡◌, refl}
use rustend.Core.Ids.{Text}
use rustend.Core.Text.{text_eq}
use rustend.Server.Error.{connection}
use rustend.Server.Tables.{Tables}
use rustend.Server.Sql.{Result, ok, err, idle, run_under}
use rustend.Server.Auth.{
  AuthInfo, AuthError, forwarded_for, Request, reply, extract_ip, call, unauthenticated,
}
use rustend.Server.Auth.Registered.{Handler, call-reply}
use rustend.Server.Tables.{has_client}
use rustend.Server.Handlers.Files.{download, upload, remove, serve, serve_map, serve-refines-map}
use rustend.Server.Db.Files.{find_file}
use rustend.Server.Db.Clients.{upsert_client}
use rustend.Server.Tests.{small}

-- An address and a header value are texts here, and the application knows one address.
abbrev peer_request : Request Text Text
peer_request = record {
  peer = none;
  x_forwarded_for = some (32 ∷ 7 ∷ 44 ∷ 8 ∷ []);
  x_real_ip = none;
}

abbrev known_client : AuthInfo
known_client = record { client_id = 2; user_id = 9; roles = [] }

abbrev provider : Text → Result AuthError AuthInfo
provider ip = if text_eq ip (7 ∷ []) then ok known_client else err unauthenticated

-- A handler that says who asked.
abbrev say : Handler ℕ ℕ
say info fates s = (reply info.client_id, s)

said :
    (call {HeaderValue = Text} some some provider connection say 50 forwarded_for peer_request []
      (idle small)).0
    ≡ reply 2
unfolding call extract_ip run_under upsert_client
said = refl

call-reply_example :
    (ip : Text) × (info : AuthInfo) × (u : Tables ℕ) × (extract_ip some some peer_request
        forwarded_for
      ≡ some ip)
    × (provider ip ≡ ok info)
    × (has_client info.client_id u.clients ≡ true)
    × (call {HeaderValue = Text} some some provider connection say 50 forwarded_for peer_request []
          (idle small)
        ≡ say info [] (idle u))
call-reply_example =
    call-reply some some provider connection say 50 forwarded_for peer_request [] small 2 said

serve-refines-map_example :
    serve (upload 3 (1 ∷ []) ∷ download 3 ∷ remove 3 ∷ download 3 ∷ []) (idle small)
    ≡ serve_map
        (upload 3 (1 ∷ []) ∷ download 3 ∷ remove 3 ∷ download 3 ∷ [])
        (λ o. find_file o small.files)
serve-refines-map_example =
    serve-refines-map (upload 3 (1 ∷ []) ∷ download 3 ∷ remove 3 ∷ download 3 ∷ []) small
