-- ===== src/Examples/RemoteSigner.antt =====
-- examples/remote_signer_server/main.go: the server that signs attribution headers for clients.
pub mod Handler
pub mod Agreement
use go_builder_relayer_clien.Prelude.{
  ℕ, Bool, false, ◌||◌, not, none, some, List, [], ◌∷◌, ◌++◌, Text, Bytes, codes, text_eq, is_empty,
  if◌then◌else◌,
}
use go_builder_relayer_clien.Prelude.Int.{ℤ}
use go_builder_relayer_clien.Golang.Header.{Header, header_get, header_set}
use go_builder_relayer_clien.Errors.{plain, Result, ok, err}
use go_builder_relayer_clien.Effects.{HttpRequest, Reply, response, History, Host, Go}
use go_builder_relayer_clien.BuilderAuth.{
  BuilderConfig, header_poly_builder_api_key, header_poly_builder_passphrase,
  header_poly_builder_signature, header_poly_builder_timestamp, headers,
}
use go_builder_relayer_clien.Examples.Environment.{Getenv, first_env, to_upper}

-- signRequest; a timestamp that is left out is 0
pub record SignRequest : Type 0 where
  pub method : Text
  pub path : Text
  pub body : Text
  pub timestamp : ℤ

-- The parts of Go's library that the server calls: encoding/json and unicode.ToUpper.
pub record Codec : Type 0 where
  pub decode_request : Bytes → Result SignRequest
  pub encode_response : List (Text × Text) → Result Bytes
  pub unicode_upper : Text → Text

-- what main builds: the configuration, the token (empty for none) and the address to listen on
pub record Server : Type 0 where
  pub config : BuilderConfig
  pub token : Text
  pub address : Text

-- main up to the handler; an error is log.Fatal
unfoldable pub new_server : Getenv → Result Server
unfolding first_env
new_server getenv =
    let key = first_env getenv (codes "BUILDER_API_KEY" ∷ codes "POLY_BUILDER_API_KEY" ∷ []) in
    let secret = first_env getenv (codes "BUILDER_SECRET" ∷ codes "POLY_BUILDER_SECRET" ∷ []) in
    let passphrase =
      first_env getenv (codes "BUILDER_PASS_PHRASE" ∷ codes "POLY_BUILDER_PASSPHRASE" ∷ []) in
    let address = first_env getenv (codes "REMOTE_SIGNER_ADDR" ∷ codes "SIGNER_ADDR" ∷ []) in
    if is_empty key || (is_empty secret || is_empty passphrase)
    then err (
        plain
          (codes "missing BUILDER_API_KEY/BUILDER_SECRET/BUILDER_PASS_PHRASE (or POLY_BUILDER_*)"))
    else ok (record {
      config = record {
        local = some (record { key = key; secret = secret; passphrase = passphrase });
        remote = none;
        remote_fallback_local = false;
      };
      token = getenv (codes "BUILDER_REMOTE_TOKEN");
      address = if is_empty address then codes ":8080" else address;
    })

-- the JSON object of the answer
abbrev pub response_of : Header → List (Text × Text)
response_of hd =
    (header_poly_builder_api_key, header_get header_poly_builder_api_key hd)
    ∷ (header_poly_builder_passphrase, header_get header_poly_builder_passphrase hd)
    ∷ (header_poly_builder_signature, header_get header_poly_builder_signature hd)
    ∷ (header_poly_builder_timestamp, header_get header_poly_builder_timestamp hd)
    ∷ []

abbrev pub status_only : ℕ → Reply
status_only status = response status [] []

module _ (codec : Codec) (host : Host) (server : Server) where
  -- the answer behind the signing
  unfoldable pub answer_signed : Result Header → Reply
  answer_signed (err e) = status_only 500
  answer_signed (ok hd) =
      let typed = header_set (codes "Content-Type") (codes "application/json") [] in
      elim (codec.encode_response (response_of hd)) [
        | err e ↦ response 500 typed []
        | ok body ↦ response 200 typed body
      ]

  -- a request that is decoded
  unfoldable pub answer_request : SignRequest → History → Reply
  unfolding answer_signed
  answer_request req h =
      if is_empty req.method || is_empty req.path
      then status_only 400
      else answer_signed
          (headers host (some server.config) (to_upper codec.unicode_upper req.method) req.path
            (some req.body) req.timestamp h).0

  -- auth == "Bearer " + remoteToken, where there is a token
  unfoldable pub authorized : Header → Bool
  unfolding text_eq
  authorized hd =
      is_empty server.token
      || text_eq (header_get (codes "Authorization") hd) (codes "Bearer " ++ server.token)

  -- the handler of /sign-builder
  unfoldable pub sign_builder : HttpRequest → History → Reply
  unfolding text_eq
  sign_builder req h =
      if not (text_eq req.method (codes "POST"))
      then status_only 405
      else if not (authorized req.headers)
      then status_only 401
      else elim (codec.decode_request req.body) [
        | err e ↦ status_only 400
        | ok r ↦ answer_request r h
      ]
