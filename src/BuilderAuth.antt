-- ===== src/BuilderAuth.antt =====
-- builder_auth.go: the attribution headers, signed with local credentials or by a remote signer.
pub mod Attributed
pub mod Events
pub mod Timestamps
pub mod Validity
pub mod Complete
use go_builder_relayer_clien.Prelude.{
  ℕ, ◌/◌, Bool, true, false, ◌&&◌, ◌||◌, Option, none, some, List, [], ◌∷◌, ◌++◌, Text, Bytes,
  codes, text_eq, is_empty, not, ltb, leb, if◌then◌else◌,
}
use go_builder_relayer_clien.Prelude.Int.{ℤ, pos, negsuc, is_zero, ltb_ℤ, mul_int64}
use go_builder_relayer_clien.Golang.Base64.{url, std}
use go_builder_relayer_clien.Golang.Base64
use go_builder_relayer_clien.Golang.Header.{Header, header_set}
use go_builder_relayer_clien.Golang.Strconv.{format_nat, format_int}
use go_builder_relayer_clien.Errors.{
  Error, plain, foreign, sdk, wrap, message, Result, ok, err, wrap_error,
}
use go_builder_relayer_clien.Errors.Predefined.{err_missing_builder_config}
use go_builder_relayer_clien.Effects.{
  HttpRequest, Reply, failed, broken, response, signer_exchange, SignPayload, Host, Go, ◌>>=◌, ◌>>◌,
  lift, fail, emit, ask,
}

abbrev pub header_poly_builder_api_key : Text
header_poly_builder_api_key = codes "POLY_BUILDER_API_KEY"

abbrev pub header_poly_builder_passphrase : Text
header_poly_builder_passphrase = codes "POLY_BUILDER_PASSPHRASE"

abbrev pub header_poly_builder_signature : Text
header_poly_builder_signature = codes "POLY_BUILDER_SIGNATURE"

abbrev pub header_poly_builder_timestamp : Text
header_poly_builder_timestamp = codes "POLY_BUILDER_TIMESTAMP"

abbrev pub builder_timestamp_millis_threshold : ℤ
builder_timestamp_millis_threshold = pos 1_000_000_000_000

-- time.Now().UnixMilli() at a time in nanoseconds: rounded down
abbrev pub unix_milli : ℤ → ℤ
unix_milli (pos n) = pos (n / 1_000_000)
unix_milli (negsuc n) = negsuc (n / 1_000_000)

unfoldable pub normalize_builder_timestamp : ℤ → ℤ → ℤ
normalize_builder_timestamp now timestamp =
    if is_zero timestamp
    then unix_milli now
    else if ltb_ℤ timestamp builder_timestamp_millis_threshold
    then mul_int64 timestamp 1000
    else timestamp

pub record BuilderCredentials : Type 0 where
  pub key : Text
  pub secret : Text
  pub passphrase : Text

-- The HTTPClient is the host's `signer_trip`.
pub record BuilderRemoteConfig : Type 0 where
  pub host : Text
  pub token : Text

pub record BuilderConfig : Type 0 where
  pub local : Option BuilderCredentials
  pub remote : Option BuilderRemoteConfig
  pub remote_fallback_local : Bool

-- A pointer that is not nil to credentials with no empty field; a remote config with a host.
abbrev pub local_valid : Option BuilderCredentials → Bool
local_valid none = false
local_valid (some c) =
    not (is_empty c.key) && (not (is_empty c.secret) && not (is_empty c.passphrase))

abbrev pub remote_valid : Option BuilderRemoteConfig → Bool
remote_valid none = false
remote_valid (some r) = not (is_empty r.host)

abbrev either_valid : Option BuilderCredentials → Option BuilderRemoteConfig → Bool
either_valid (some c) remote = local_valid (some c)
either_valid none (some r) = remote_valid (some r)
either_valid none none = false

-- (*BuilderConfig).IsValid
unfoldable pub is_valid : Option BuilderConfig → Bool
is_valid none = false
is_valid (some c) =
    if c.remote_fallback_local
    then remote_valid c.remote || local_valid c.local
    else either_valid c.local c.remote

or_secret : Option Bytes → Result Bytes → Result Bytes
or_secret (some b) otherwise = ok b
or_secret none otherwise = otherwise

-- The four encodings in turn.
unfoldable pub decode_secret : Text → Result Bytes
unfolding or_secret
decode_secret secret = or_secret (Base64.decode url true secret) (
    or_secret (Base64.decode url false secret) (
      or_secret (Base64.decode std true secret) (
        or_secret (Base64.decode std false secret)
          (err (wrap (codes "invalid base64 secret: ") (foreign (codes "illegal base64 data")))))))

-- *body, or nothing where it is nil or empty
abbrev pub body_text : Option Text → Text
body_text none = []
body_text (some body) = body

-- the four headers
abbrev pub builder_headers : Text → Text → Text → Text → Header
builder_headers key passphrase timestamp signature =
    header_set header_poly_builder_signature signature (
      header_set header_poly_builder_timestamp timestamp (
        header_set header_poly_builder_passphrase passphrase
          (header_set header_poly_builder_api_key key [])))

-- the variadic `get`: the first value of a key that is there and not empty
lookup_text : Text → List (Text × Text) → Text
unfolding text_eq
lookup_text k [] = []
lookup_text k ((j, v) ∷ m) = if text_eq j k then v else lookup_text k m

unfoldable pub get_first : List Text → List (Text × Text) → Text
unfolding lookup_text
get_first [] raw = []
get_first (k ∷ keys) raw = let v = lookup_text k raw in if is_empty v then get_first keys raw else v

-- the headers of a decoded answer of the remote signer
unfoldable pub headers_of_signed : List (Text × Text) → Result Header
headers_of_signed raw =
    let key =
      get_first
        (header_poly_builder_api_key
          ∷ codes "poly_builder_api_key"
          ∷ codes "POLY_BUILDER_API_KEY"
          ∷ [])
        raw in
    let pass =
      get_first
        (header_poly_builder_passphrase
          ∷ codes "poly_builder_passphrase"
          ∷ codes "POLY_BUILDER_PASSPHRASE"
          ∷ [])
        raw in
    let sig =
      get_first
        (header_poly_builder_signature
          ∷ codes "poly_builder_signature"
          ∷ codes "POLY_BUILDER_SIGNATURE"
          ∷ [])
        raw in
    let ts =
      get_first
        (header_poly_builder_timestamp
          ∷ codes "poly_builder_timestamp"
          ∷ codes "POLY_BUILDER_TIMESTAMP"
          ∷ [])
        raw in
    if is_empty key || (is_empty pass || (is_empty sig || is_empty ts))
    then err (plain (codes "invalid builder headers response"))
    else ok (builder_headers key pass ts sig)

module _ (host : Host) where
  unfoldable pub sign_hmac : Text → Text → Result Text
  unfolding decode_secret
  sign_hmac secret text = elim (decode_secret secret) [
    | err e ↦ err e
    | ok key ↦ ok (Base64.encode url true (host.hmac_sha256 key text))
  ]

  unfoldable pub local_headers : BuilderCredentials → Text → Text → Option Text → ℤ → Result Header
  unfolding sign_hmac
  local_headers creds method path body timestamp =
      elim (sign_hmac creds.secret (format_int timestamp ++ (method ++ (path ++ body_text body)))) [
        | err e ↦ err e
        | ok sig ↦ ok (builder_headers creds.key creds.passphrase (format_int timestamp) sig)
      ]

  unfoldable pub build_builder_headers_local :
      Option BuilderCredentials → Text → Text → Option Text → ℤ → Go Header
  build_builder_headers_local none method path body timestamp =
      fail (sdk err_missing_builder_config)
  build_builder_headers_local (some creds) method path body timestamp =
      if not (local_valid (some creds)) then fail (sdk err_missing_builder_config) else do
        now ← ask host.now
        lift (local_headers creds method path body (normalize_builder_timestamp now timestamp))

  -- an answer with this status, whose body ends or breaks off behind these bytes
  unfoldable pub read_signed : ℕ → Bytes → Option Error → Result Header
  read_signed status body end =
      if ltb status 200 || leb 300 status
      then err (plain (codes "builder signer error: status " ++ format_nat status))
      else elim (host.decode_signed body end) [
        | err e ↦ err (wrap (codes "decode builder headers: ") e)
        | ok raw ↦ headers_of_signed raw
      ]

  -- what the answer of the remote signer comes to
  unfoldable pub signer_answer : Reply → Result Header
  unfolding read_signed
  signer_answer (failed e) = err (wrap (codes "builder request: ") e)
  signer_answer (broken status body e) = read_signed status body (some e)
  signer_answer (response status headers body) = read_signed status body none

  -- the payload: a timestamp of 0 stays out
  abbrev pub sign_payload : Text → Text → Option Text → ℤ → ℤ → SignPayload
  sign_payload method path body now timestamp = record {
    method = method;
    path = path;
    body = body_text body;
    timestamp =
        let normalized = normalize_builder_timestamp now timestamp in
        if is_zero timestamp || is_zero normalized then none else some normalized;
  }

  abbrev pub signer_request : BuilderRemoteConfig → Bytes → HttpRequest
  signer_request remote raw = record {
    method = codes "POST";
    url = remote.host;
    headers =
        let typed = header_set (codes "Content-Type") (codes "application/json") [] in
        if is_empty remote.token
        then typed
        else header_set (codes "Authorization") (codes "Bearer " ++ remote.token) typed;
    body = raw;
  }

  unfoldable pub build_builder_headers_remote :
      Option BuilderRemoteConfig → Text → Text → Option Text → ℤ → Go Header
  build_builder_headers_remote none method path body timestamp =
      fail (sdk err_missing_builder_config)
  build_builder_headers_remote (some remote) method path body timestamp =
      if is_empty remote.host then fail (sdk err_missing_builder_config) else do
        now ← ask host.now
        raw ← lift (
            wrap_error (codes "marshal builder payload: ")
              (host.marshal_sign_payload (sign_payload method path body now timestamp)))
        lift (wrap_error (codes "builder request: ") (host.new_request (codes "POST") remote.host))
        reply ← ask (λ h. host.signer_trip h (signer_request remote raw))
        emit (signer_exchange (signer_request remote raw) reply)
        lift (signer_answer reply)

  -- the error of both signers
  pub both_failed : Error → Error → Error
  both_failed remote_err local_err = plain (
      codes "builder remote fallback local failed: remote="
      ++ (message remote_err ++ (codes " local=" ++ message local_err)))

  -- m, and `otherwise e` where it fails with `e`
  abbrev pub recover : {A : Type 0} → Go A → (Error → Go A) → Go A
  recover m otherwise h = elim (m h).0 [ ok a ↦ (ok a, (m h).1) | err e ↦ otherwise e (m h).1 ]

  unfoldable pub one_signer :
      Option BuilderCredentials
      → Option BuilderRemoteConfig
      → Text
      → Text
      → Option Text
      → ℤ
      → Go Header
  one_signer (some creds) remote method path body timestamp =
      build_builder_headers_local (some creds) method path body timestamp
  one_signer none (some remote) method path body timestamp =
      build_builder_headers_remote (some remote) method path body timestamp
  one_signer none none method path body timestamp = fail (sdk err_missing_builder_config)

  abbrev pub is_some : {A : Type 0} → Option A → Bool
  is_some none = false
  is_some (some _) = true

  -- (*BuilderConfig).Headers
  unfoldable pub headers : Option BuilderConfig → Text → Text → Option Text → ℤ → Go Header
  unfolding one_signer both_failed
  headers none method path body timestamp = fail (sdk err_missing_builder_config)
  headers (some c) method path body timestamp =
      if c.remote_fallback_local && (is_some c.remote && is_some c.local)
      then recover (build_builder_headers_remote c.remote method path body timestamp) (λ remote_err.
        recover (build_builder_headers_local c.local method path body timestamp)
          (λ local_err. fail (both_failed remote_err local_err)))
      else one_signer c.local c.remote method path body timestamp
