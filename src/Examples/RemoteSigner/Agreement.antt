-- ===== src/Examples/RemoteSigner/Agreement.antt =====
-- A client that signs by the example server, next to one that holds the credentials itself.
use go_builder_relayer_clien.Prelude.{
  ◌≡◌, ◌≢◌, refl, ap, ◌∙◌, inl, inr, false, Option, none, some, [], Text, Bytes, codes,
  is_empty-ne-nil, Bool-cases,
}
use go_builder_relayer_clien.Prelude.Int.{ℤ}
use go_builder_relayer_clien.Golang.Header.{Header}
use go_builder_relayer_clien.Errors.{plain, Result, ok, err}
use go_builder_relayer_clien.Effects.{History, Host, SignPayload}
use go_builder_relayer_clien.BuilderAuth.{
  BuilderCredentials, BuilderRemoteConfig, local_valid, headers, body_text,
  build_builder_headers_local, build_builder_headers_remote, local_headers, sign_payload,
  signer_request, signer_answer, normalize_builder_timestamp, one_signer,
}
use go_builder_relayer_clien.BuilderAuth.Complete.{HasMac, local-Yields}
use go_builder_relayer_clien.Examples.Environment.{to_upper}
use go_builder_relayer_clien.Examples.RemoteSigner.{Codec, Server, response_of, sign_builder}
use go_builder_relayer_clien.Golang.Strconv.{format_nat}
use go_builder_relayer_clien.Golang.Positional.{digits}
use go_builder_relayer_clien.Examples.RemoteSigner.Handler.{
  timestamp_or_zero, request_of, IsTimestamp, sent_lem, read_back, bearer_authorized,
  bearer_refused, admitted, turned_away, signed_answer,
}

body_same :
    (host : Host) (creds : BuilderCredentials) (method path : Text) (body : Option Text) (t : ℤ)
    → local_headers host creds method path (some (body_text body)) t
      ≡ local_headers host creds method path body t
unfolding local_headers
body_same host creds method path none t = refl
body_same host creds method path (some body) t = refl

-- A server with these credentials and this token.
abbrev pub server_of : BuilderCredentials → Text → Server
server_of creds token = record {
  config = record { local = some creds; remote = none; remote_fallback_local = false };
  token = token;
  address = codes ":8080";
}

module _ (codec : Codec) (host server_host : Host) (remote : BuilderRemoteConfig) where
  -- The client's request with the bytes `raw` of the payload reaches the server, whose answer comes
  -- back.
  pub record Reaches (server : Server) (h hs : History) (payload : SignPayload) (raw : Bytes)
      : Type 0 where
    pub named : remote.host ≢ []
    pub built : host.new_request (codes "POST") remote.host ≡ ok tt
    pub marshalled : host.marshal_sign_payload payload ≡ ok raw
    pub answered :
        host.signer_trip h (signer_request host remote raw)
        ≡ sign_builder codec server_host server (signer_request host remote raw) hs

  -- JSON carries the payload to the server, and its answer back.
  pub record Carries (payload : SignPayload) (raw : Bytes) (hd : Header) : Type 0 where
    pub answer : Bytes
    pub decoded : codec.decode_request raw ≡ ok (request_of payload)
    pub encoded : codec.encode_response (response_of hd) ≡ ok answer
    pub read : host.decode_signed answer none ≡ ok (response_of hd)

  module _ (method path : Text) (body : Option Text) (t : ℤ) (h hs : History) (raw : Bytes) where
    -- what the client sends
    abbrev pub payload : SignPayload
    payload = sign_payload host method path body (host.now h) t

    remote_answer :
        (server : Server)
        → Reaches server h hs payload raw
        → (build_builder_headers_remote host (some remote) method path body t h).0
          ≡ signer_answer host
              (sign_builder codec server_host server (signer_request host remote raw) hs)
    unfolding build_builder_headers_remote
    remote_answer server r =
        rw (is_empty-ne-nil remote.host r.named, r.marshalled, r.built)
          (ap (signer_answer host) r.answered)

    served_headers :
        (creds : BuilderCredentials) (token : Text) (hd : Header)
        → IsTimestamp t
        → to_upper codec.unicode_upper method ≡ method
        → (build_builder_headers_local server_host (some creds) method path body t hs).0 ≡ ok hd
        → (headers server_host
            (some (server_of creds token).config)
            (to_upper codec.unicode_upper method)
            path
            (some (body_text body))
            (timestamp_or_zero payload.timestamp)
            hs).0
          ≡ ok hd
    unfolding headers one_signer build_builder_headers_local
    served_headers creds token hd stamp up p =
        let stamped = sent_lem (host.now h) (server_host.now hs) t stamp in
        elim (Bool-cases (local_valid (some creds))) [
          | inl valid ↦
              rw (valid, up, stamped)
                (body_same server_host creds method path body
                    (normalize_builder_timestamp (server_host.now hs) t)
                  ∙ rw valid at p)
          | inr invalid ↦ cc (rw invalid at p)
        ]

    -- Behind a server with the credentials and the client's token, the client gets the headers that
    -- the credentials give on the server: for a method in upper case, a path that is not empty, and a
    -- timestamp of 0 or of 10 ^ 9 and more, where JSON carries the payload and the answer. The MAC is
    -- taken never to be empty.
    pub remote_signs_as_local :
        HasMac server_host
        → (creds : BuilderCredentials) (hd : Header)
        → Reaches (server_of creds remote.token) h hs payload raw
        → Carries payload raw hd
        → IsTimestamp t
        → to_upper codec.unicode_upper method ≡ method
        → method ≢ []
        → path ≢ []
        → (build_builder_headers_local server_host (some creds) method path body t hs).0 ≡ ok hd
        → (build_builder_headers_remote host (some remote) method path body t h).0 ≡ ok hd
    unfolding signer_answer
    remote_signs_as_local mac creds hd r c stamp up m n p =
        let server = server_of creds remote.token in
        let passed = bearer_authorized codec server_host server remote.host remote.token raw refl in
        let local = build_builder_headers_local server_host (some creds) method path body t hs in
        let attribution =
          local-Yields server_host method path body mac (some creds) t hs local.1 hd
            (ap (λ (x : Result Header). (x, local.1)) p) in
        let req = signer_request host remote raw in
        let served = served_headers creds remote.token hd stamp up p in
        let (typed, e) =
          signed_answer codec server_host server (request_of payload) hd c.answer hs m n served
            c.encoded in
        remote_answer server r
        ∙ ap (signer_answer host) (
            admitted codec server_host server req (request_of payload) hs refl passed c.decoded ∙ e)
        ∙ rw c.read (read_back hd attribution)

    -- A client whose token is not that of the server gets an error, and no headers.
    pub remote_refuses_token :
        (server : Server)
        → Reaches server h hs payload raw
        → server.token ≢ []
        → remote.token ≢ server.token
        → (build_builder_headers_remote host (some remote) method path body t h).0
          ≡ err (plain (codes "builder signer error: status 401"))
    unfolding signer_answer format_nat digits
    remote_refuses_token server r given other =
        let denied =
          bearer_refused codec server_host server remote.host remote.token raw given other in
        let req = signer_request host remote raw in
        remote_answer server r
        ∙ ap (signer_answer host) (turned_away codec server_host server req hs refl denied)
