-- ===== src/Client/Attribution.antt =====
-- The requests of the client, and their headers.
use go_builder_relayer_clien.Prelude.{
  ◌≢◌, sym, subst, some, List, [], ◌∷◌, ◌++◌, Text, Bytes, codes,
}
use go_builder_relayer_clien.Prelude.Int.{pos}
use go_builder_relayer_clien.Golang.Header.{
  Header, header_get, header_set, header_add, values_of, put_values, canonical_key, add_all,
  add_values,
}
use go_builder_relayer_clien.Errors.{sdk, Result, ok, err, wrap_error}
use go_builder_relayer_clien.Errors.Predefined.{err_missing_builder_config}
use go_builder_relayer_clien.Types.{TransactionRequest}
use go_builder_relayer_clien.Effects.{HttpRequest, Event, Host, ◌>>=◌, lift, fail}
use go_builder_relayer_clien.Effects.Preserves.{
  Preserves, Preserves-lift, Preserves-bind, Preserves-bind_of, Preserves-if,
}
use go_builder_relayer_clien.Http.{request_of, http_do}
use go_builder_relayer_clien.Http.Requests.{OfRequest, http_do-Preserves}
use go_builder_relayer_clien.BuilderAuth.{builder_headers, headers, is_valid}
use go_builder_relayer_clien.BuilderAuth.Attributed.{IsComplete, IsAttributed}
use go_builder_relayer_clien.BuilderAuth.Complete.{HasMac, headers-IsAttributed}
use go_builder_relayer_clien.BuilderAuth.Events.{headers-Preserves}
use go_builder_relayer_clien.Client.{
  RelayClient, send, send_signed, send_authed_request, query_of, get_nonce, get_relay_payload,
  get_transaction, get_transactions, get_deployed, submit,
}

-- a request with the four attribution headers
abbrev pub HasAttribution : HttpRequest → Type 0
HasAttribution req = IsComplete req.headers

-- a request to the relayer has them
abbrev pub IsAttributedEvent : Event → Type 0
IsAttributedEvent = OfRequest HasAttribution

module _ (host : Host) where
  request_values :
      (method target key pass ts sig : Text) (params : List (Text × Text)) (body : Bytes)
      → key ≢ []
      → pass ≢ []
      → ts ≢ []
      → sig ≢ []
      → HasAttribution (
          request_of host method target (record {
            headers = add_all (builder_headers key pass ts sig) [];
            params = params;
            body = body;
          }))
  unfolding header_get header_set header_add values_of put_values canonical_key add_all add_values
  request_values method target key pass ts sig params [] k p t s = record {
    has_key = k;
    has_passphrase = p;
    has_timestamp = t;
    has_signature = s;
  }
  request_values method target key pass ts sig params (b ∷ body) k p t s = record {
    has_key = k;
    has_passphrase = p;
    has_timestamp = t;
    has_signature = s;
  }

  request-HasAttribution :
      (method target : Text) (params : List (Text × Text)) (body : Bytes) (more : Header)
      → IsAttributed more
      → HasAttribution (
          request_of host method target
            (record { headers = add_all more []; params = params; body = body }))
  request-HasAttribution method target params body more a =
      subst
        (λ (hd : Header). HasAttribution (
          request_of host method target
            (record { headers = add_all hd []; params = params; body = body })))
        (sym a.made)
        (request_values method target a.key a.passphrase a.timestamp a.signature params body
          a.key_given a.passphrase_given a.timestamp_given a.signature_given)

  module _ (mac : HasMac host) (c : RelayClient) where
    send-Preserves :
        {A : Type 0} (decode : Bytes → Result A) (zero_value : A) (path method : Text)
        (params : List (Text × Text)) (body : Bytes)
        → Preserves IsAttributedEvent (
            send host decode zero_value c path method
              (record { headers = []; params = params; body = body }))
    unfolding send send_signed
    send-Preserves decode zero_value path method params body =
        let signing =
          headers host c.builder_config method (path ++ query_of params) (some body) (pos 0) in
        let sending = λ (more : Header).
          http_do host decode zero_value (some c.http_client) method (c.relayer_url ++ path)
            (record { headers = add_all more []; params = params; body = body }) in
        Preserves-if (is_valid c.builder_config) (signing >>= sending)
          (fail (sdk err_missing_builder_config))
          (Preserves-bind_of signing sending
            (headers-Preserves host IsAttributedEvent (λ req reply. tt) method
              (path ++ query_of params) (some body) (pos 0) c.builder_config)
            (λ more h h' p.
              http_do-Preserves host HasAttribution decode zero_value c.http_client method
                (c.relayer_url ++ path) _
                (λ target. request-HasAttribution method target params body more (
                  headers-IsAttributed host method (path ++ query_of params) (some body) mac
                    c.builder_config (pos 0) h h' more p))))
          (Preserves-lift (err (sdk err_missing_builder_config)))

    pub get_nonce-Preserves : (a t : Text) → Preserves IsAttributedEvent (get_nonce host c a t)
    unfolding get_nonce
    get_nonce-Preserves a t = send-Preserves _ _ _ _ _ _

    pub get_relay_payload-Preserves :
        (a t : Text) → Preserves IsAttributedEvent (get_relay_payload host c a t)
    unfolding get_relay_payload
    get_relay_payload-Preserves a t = send-Preserves _ _ _ _ _ _

    pub get_transaction-Preserves :
        (id : Text) → Preserves IsAttributedEvent (get_transaction host c id)
    unfolding get_transaction
    get_transaction-Preserves id = send-Preserves _ _ _ _ _ _

    pub get_transactions-Preserves : Preserves IsAttributedEvent (get_transactions host c)
    unfolding get_transactions send_authed_request
    get_transactions-Preserves = send-Preserves _ _ _ _ _ _

    pub get_deployed-Preserves : (a : Text) → Preserves IsAttributedEvent (get_deployed host c a)
    unfolding get_deployed
    get_deployed-Preserves a =
        Preserves-bind (send host host.decode_deployed _ c _ _ _) _ (send-Preserves _ _ _ _ _ _)
          (λ resp. Preserves-lift (ok resp.deployed))

    pub submit-Preserves :
        (request : TransactionRequest) → Preserves IsAttributedEvent (submit host c request)
    unfolding submit send_authed_request
    submit-Preserves request =
        Preserves-bind (lift (wrap_error (codes "encode request: ") (host.marshal_request request)))
          _ (Preserves-lift _)
          (λ payload.
            Preserves-bind (send host host.decode_submitted _ c _ _ _) _
              (send-Preserves _ _ _ _ _ _) (λ resp. Preserves-lift _))
