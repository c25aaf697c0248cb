-- ===== src/Tests/Signing.antt =====
-- A client next to the example server.
use go_builder_relayer_clien.Prelude.{◌≡◌, refl, codes, none, some, List, [], ◌∷◌, ◌++◌, Text, inl}
use go_builder_relayer_clien.Prelude.Int.{pos}
use go_builder_relayer_clien.Golang.Header.{Header, header_get}
use go_builder_relayer_clien.Errors.{plain, Result, ok, err}
use go_builder_relayer_clien.Effects.{Host}
use go_builder_relayer_clien.BuilderAuth.{
  BuilderRemoteConfig, build_builder_headers_local, build_builder_headers_remote,
  header_poly_builder_api_key, header_poly_builder_passphrase, header_poly_builder_signature,
  header_poly_builder_timestamp,
}
use go_builder_relayer_clien.Examples.RemoteSigner.{Codec, sign_builder}
use go_builder_relayer_clien.Examples.RemoteSigner.Agreement.{
  server_of, remote_signs_as_local, remote_refuses_token,
}
use go_builder_relayer_clien.Tests.{well, credentials}

-- a payload that is its path, and an answer that is its signature
abbrev signature_in : List (Text × Text) → Text
signature_in (key ∷ passphrase ∷ (name, sig) ∷ rest) = sig
signature_in entries = []

abbrev codec : Codec
codec = record {
  decode_request =
      λ b. ok (record { method = codes "GET"; path = b; body = []; timestamp = pos 0 });
  encode_response = λ entries. ok (signature_in entries);
  unicode_upper = λ t. t;
}

abbrev remote : BuilderRemoteConfig
remote = record { host = codes "http://localhost:8080/sign-builder"; token = codes "open" }

abbrev signed : Result Header
signed =
    (build_builder_headers_local well (some credentials) (codes "GET") (codes "/nonce") none (pos 0)
      []).0

abbrev signed_headers : Header
signed_headers = elim signed [ ok hd ↦ hd | err e ↦ [] ]

-- the server of `token` answers
abbrev served : Text → Host
served token = record well {
  signer_trip = λ h req. sign_builder codec well (server_of credentials token) req [];
  decode_signed = λ b end. ok (
      (header_poly_builder_api_key, codes "key")
      ∷ (header_poly_builder_passphrase, codes "pass")
      ∷ (header_poly_builder_signature, b)
      ∷ (header_poly_builder_timestamp, codes "1700000000000")
      ∷ []);
}

remote_signs_as_local_example :
    (build_builder_headers_remote
      (served (codes "open"))
      (some remote)
      (codes "GET")
      (codes "/nonce")
      none
      (pos 0)
      []).0
    ≡ ok signed_headers
unfolding go_builder_relayer_clien.Errors.Sdk.sdk_message go_builder_relayer_clien.Errors.Sdk.sdk_is
    go_builder_relayer_clien.Golang.ParseInt.parse_uint
    go_builder_relayer_clien.Golang.ParseInt.parse_int
    go_builder_relayer_clien.Golang.Positional.digits_from
    go_builder_relayer_clien.Golang.Positional.digits
    go_builder_relayer_clien.Golang.Strconv.format_nat
    go_builder_relayer_clien.Golang.Strconv.format_int
    go_builder_relayer_clien.Golang.Strconv.digit_value
    go_builder_relayer_clien.Golang.Strconv.scan_decimal
    go_builder_relayer_clien.Golang.Strconv.parse_nat
    go_builder_relayer_clien.Golang.Strconv.parse_signed
    go_builder_relayer_clien.Golang.Strconv.atoi go_builder_relayer_clien.Golang.Base64.sextet
    go_builder_relayer_clien.Golang.Base64.letter go_builder_relayer_clien.Golang.Base64.one_byte
    go_builder_relayer_clien.Golang.Base64.two_bytes
    go_builder_relayer_clien.Golang.Base64.three_bytes
    go_builder_relayer_clien.Golang.Base64.decode_quanta
    go_builder_relayer_clien.Golang.Base64.drop_newlines
    go_builder_relayer_clien.Golang.Base64.decode go_builder_relayer_clien.Golang.Base64.encode
    go_builder_relayer_clien.Golang.BigInt.set_string_prefixed
    go_builder_relayer_clien.Golang.BigInt.set_string10
    go_builder_relayer_clien.Golang.BigInt.big_bytes
    go_builder_relayer_clien.Golang.Hex.decode_string
    go_builder_relayer_clien.Golang.Header.canonical_key
    go_builder_relayer_clien.Golang.Header.values_of
    go_builder_relayer_clien.Golang.Header.put_values
    go_builder_relayer_clien.Golang.Header.header_get
    go_builder_relayer_clien.Golang.Header.header_set
    go_builder_relayer_clien.Golang.Header.header_add
    go_builder_relayer_clien.Golang.Header.add_values go_builder_relayer_clien.Golang.Header.add_all
    go_builder_relayer_clien.Golang.Strings.trim_space
    go_builder_relayer_clien.Golang.Strings.trim_right
    go_builder_relayer_clien.Golang.Values.set_value go_builder_relayer_clien.Golang.Values.set_all
    go_builder_relayer_clien.Golang.Values.query_escape
    go_builder_relayer_clien.Golang.Values.encode
    go_builder_relayer_clien.Golang.Values.query_unescape
    go_builder_relayer_clien.Golang.Values.parse_query
    go_builder_relayer_clien.BuilderAuth.normalize_builder_timestamp
    go_builder_relayer_clien.BuilderAuth.is_valid go_builder_relayer_clien.BuilderAuth.decode_secret
    go_builder_relayer_clien.BuilderAuth.get_first
    go_builder_relayer_clien.BuilderAuth.headers_of_signed
    go_builder_relayer_clien.BuilderAuth.sign_hmac
    go_builder_relayer_clien.BuilderAuth.local_headers
    go_builder_relayer_clien.BuilderAuth.build_builder_headers_local
    go_builder_relayer_clien.BuilderAuth.read_signed
    go_builder_relayer_clien.BuilderAuth.signer_answer
    go_builder_relayer_clien.BuilderAuth.build_builder_headers_remote
    go_builder_relayer_clien.BuilderAuth.one_signer go_builder_relayer_clien.BuilderAuth.headers
    go_builder_relayer_clien.Errors.http_message go_builder_relayer_clien.Errors.message
    go_builder_relayer_clien.Errors.unwrapped_is go_builder_relayer_clien.Errors.errors_is
    go_builder_relayer_clien.Errors.http_code
    go_builder_relayer_clien.Examples.RemoteSigner.new_server
    go_builder_relayer_clien.Examples.RemoteSigner.answer_signed
    go_builder_relayer_clien.Examples.RemoteSigner.answer_request
    go_builder_relayer_clien.Examples.RemoteSigner.authorized
    go_builder_relayer_clien.Examples.RemoteSigner.sign_builder
    go_builder_relayer_clien.Examples.Environment.first_env
    go_builder_relayer_clien.Examples.Environment.upper
    go_builder_relayer_clien.Examples.Environment.to_upper
    go_builder_relayer_clien.Examples.Setup.build_builder_config
    go_builder_relayer_clien.Examples.Setup.basic_builder_config
    go_builder_relayer_clien.Examples.Setup.end_to_end_setup
    go_builder_relayer_clien.Examples.Setup.basic_setup
    go_builder_relayer_clien.Examples.Programs.execute_and_wait
    go_builder_relayer_clien.Examples.Programs.ensure_deployed
    go_builder_relayer_clien.Examples.Programs.end_to_end_run
    go_builder_relayer_clien.Examples.Programs.end_to_end
    go_builder_relayer_clien.Examples.Programs.basic go_builder_relayer_clien.Prelude.Int.mul_int64
    go_builder_relayer_clien.Prelude.Int.sub_int64 go_builder_relayer_clien.Prelude.text_eq
    go_builder_relayer_clien.Prelude.has_prefix
remote_signs_as_local_example =
    remote_signs_as_local codec (served (codes "open")) well remote (codes "GET") (codes "/nonce")
      none (pos 0) [] [] (codes "/nonce") (λ k t e. cc) credentials signed_headers
      (record { named = λ e. cc; built = refl; marshalled = refl; answered = refl })
      (record {
        answer = header_get header_poly_builder_signature signed_headers;
        decoded = refl;
        encoded = refl;
        read = refl;
      })
      (inl refl) refl (λ e. cc) (λ e. cc) refl

remote_refuses_token_example :
    (build_builder_headers_remote
      (served (codes "closed"))
      (some remote)
      (codes "GET")
      (codes "/nonce")
      none
      (pos 0)
      []).0
    ≡ err (plain (codes "builder signer error: status 401"))
unfolding go_builder_relayer_clien.Errors.Sdk.sdk_message go_builder_relayer_clien.Errors.Sdk.sdk_is
    go_builder_relayer_clien.Golang.ParseInt.parse_uint
    go_builder_relayer_clien.Golang.ParseInt.parse_int
    go_builder_relayer_clien.Golang.Positional.digits_from
    go_builder_relayer_clien.Golang.Positional.digits
    go_builder_relayer_clien.Golang.Strconv.format_nat
    go_builder_relayer_clien.Golang.Strconv.format_int
    go_builder_relayer_clien.Golang.Strconv.digit_value
    go_builder_relayer_clien.Golang.Strconv.scan_decimal
    go_builder_relayer_clien.Golang.Strconv.parse_nat
    go_builder_relayer_clien.Golang.Strconv.parse_signed
    go_builder_relayer_clien.Golang.Strconv.atoi go_builder_relayer_clien.Golang.Base64.sextet
    go_builder_relayer_clien.Golang.Base64.letter go_builder_relayer_clien.Golang.Base64.one_byte
    go_builder_relayer_clien.Golang.Base64.two_bytes
    go_builder_relayer_clien.Golang.Base64.three_bytes
    go_builder_relayer_clien.Golang.Base64.decode_quanta
    go_builder_relayer_clien.Golang.Base64.drop_newlines
    go_builder_relayer_clien.Golang.Base64.decode go_builder_relayer_clien.Golang.Base64.encode
    go_builder_relayer_clien.Golang.BigInt.set_string_prefixed
    go_builder_relayer_clien.Golang.BigInt.set_string10
    go_builder_relayer_clien.Golang.BigInt.big_bytes
    go_builder_relayer_clien.Golang.Hex.decode_string
    go_builder_relayer_clien.Golang.Header.canonical_key
    go_builder_relayer_clien.Golang.Header.values_of
    go_builder_relayer_clien.Golang.Header.put_values
    go_builder_relayer_clien.Golang.Header.header_get
    go_builder_relayer_clien.Golang.Header.header_set
    go_builder_relayer_clien.Golang.Header.header_add
    go_builder_relayer_clien.Golang.Header.add_values go_builder_relayer_clien.Golang.Header.add_all
    go_builder_relayer_clien.Golang.Strings.trim_space
    go_builder_relayer_clien.Golang.Strings.trim_right
    go_builder_relayer_clien.Golang.Values.set_value go_builder_relayer_clien.Golang.Values.set_all
    go_builder_relayer_clien.Golang.Values.query_escape
    go_builder_relayer_clien.Golang.Values.encode
    go_builder_relayer_clien.Golang.Values.query_unescape
    go_builder_relayer_clien.Golang.Values.parse_query
    go_builder_relayer_clien.BuilderAuth.normalize_builder_timestamp
    go_builder_relayer_clien.BuilderAuth.is_valid go_builder_relayer_clien.BuilderAuth.decode_secret
    go_builder_relayer_clien.BuilderAuth.get_first
    go_builder_relayer_clien.BuilderAuth.headers_of_signed
    go_builder_relayer_clien.BuilderAuth.sign_hmac
    go_builder_relayer_clien.BuilderAuth.local_headers
    go_builder_relayer_clien.BuilderAuth.build_builder_headers_local
    go_builder_relayer_clien.BuilderAuth.read_signed
    go_builder_relayer_clien.BuilderAuth.signer_answer
    go_builder_relayer_clien.BuilderAuth.build_builder_headers_remote
    go_builder_relayer_clien.BuilderAuth.one_signer go_builder_relayer_clien.BuilderAuth.headers
    go_builder_relayer_clien.Errors.http_message go_builder_relayer_clien.Errors.message
    go_builder_relayer_clien.Errors.unwrapped_is go_builder_relayer_clien.Errors.errors_is
    go_builder_relayer_clien.Errors.http_code go_builder_relayer_clien.Prelude.Int.mul_int64
    go_builder_relayer_clien.Prelude.Int.sub_int64 go_builder_relayer_clien.Prelude.text_eq
    go_builder_relayer_clien.Prelude.has_prefix
remote_refuses_token_example =
    remote_refuses_token codec (served (codes "closed")) well remote (codes "GET") (codes "/nonce")
      none (pos 0) [] [] (codes "/nonce") (server_of credentials (codes "closed"))
      (record { named = λ e. cc; built = refl; marshalled = refl; answered = refl }) (λ e. cc)
      (λ e. cc)
