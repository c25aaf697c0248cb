-- ===== src/Examples/RemoteSigner/Handler.antt =====
-- What the handler of the example server does with a client's request.
use go_builder_relayer_clien.Prelude.{
  ℕ, ◌*◌, ◌^◌, ◌≤◌, ◌≡◌, ◌≢◌, refl, ap, sym, subst, ◌∙◌, ◌⊎◌, inl, inr, arith, true, false, ◌||◌,
  ltb, Option, none, some, [], ◌∷◌, ◌++◌, Text, Bytes, codes, text_eq, text_eq_refl,
  is_empty-ne-nil, text_eq-ne, if◌then◌else◌, Bool-cases,
}
use go_builder_relayer_clien.Prelude.Int.{ℤ, pos, is_zero}
use go_builder_relayer_clien.Golang.Header.{
  Header, header_get, header_set, values_of, put_values, canonical_key,
}
use go_builder_relayer_clien.Errors.{ok}
use go_builder_relayer_clien.Effects.{HttpRequest, response, History, Host, SignPayload}
use go_builder_relayer_clien.BuilderAuth.{
  headers, builder_headers, get_first, headers_of_signed, signer_request,
  normalize_builder_timestamp,
}
use go_builder_relayer_clien.BuilderAuth.Attributed.{IsAttributed}
use go_builder_relayer_clien.BuilderAuth.Timestamps.{seconds, millis}
use go_builder_relayer_clien.Examples.Environment.{to_upper}
use go_builder_relayer_clien.Examples.RemoteSigner.{
  SignRequest, Codec, Server, response_of, answer_signed, answer_request, authorized, sign_builder,
  status_only,
}

-- the timestamp of a payload as the server decodes it
abbrev pub timestamp_or_zero : Option ℤ → ℤ
timestamp_or_zero none = pos 0
timestamp_or_zero (some t) = t

abbrev pub request_of : SignPayload → SignRequest
request_of p = record {
  method = p.method;
  path = p.path;
  body = p.body;
  timestamp = timestamp_or_zero p.timestamp;
}

-- A timestamp of 0 stands for now, and one of 10 ^ 9 and more is taken for what it is.
abbrev pub IsTimestamp : ℤ → Type 0
IsTimestamp t = (t ≡ pos 0) ⊎ ((n : ℕ) × (t ≡ pos n) × (10 ^ 9 ≤ n))

abbrev pub sent : ℤ → ℤ → ℤ
sent now t =
    let normalized = normalize_builder_timestamp now t in
    timestamp_or_zero (if is_zero t || is_zero normalized then none else some normalized)

sent_value :
    (now : ℤ) (n m : ℕ)
    → normalize_builder_timestamp now (pos n) ≡ pos m
    → 1 ≤ n
    → 1 ≤ m
    → sent now (pos n) ≡ pos m
sent_value now n m e h k = rw e (ground arith)

sent_later :
    (now now' : ℤ) (n : ℕ)
    → 10 ^ 9 ≤ n
    → normalize_builder_timestamp now' (sent now (pos n)) ≡ normalize_builder_timestamp now' (pos n)
sent_later now now' n h = elim (Bool-cases (ltb n (10 ^ 12))) [
  | inl early ↦
      let e = seconds now n (omega arith) (ground arith) in
      let e' = seconds now' n (omega arith) (ground arith) in
      ap (normalize_builder_timestamp now')
        (sent_value now n (n * 1000) e (omega arith) (omega arith))
      ∙ millis now' (n * 1000) (omega arith)
      ∙ sym e'
  | inr late ↦
      let e = millis now n (ground arith) in
      ap (normalize_builder_timestamp now') (sent_value now n n e (omega arith) (omega arith))
]

pub sent_lem :
    (now now' t : ℤ)
    → IsTimestamp t
    → normalize_builder_timestamp now' (sent now t) ≡ normalize_builder_timestamp now' t
sent_lem now now' t (inl z) = rw z refl
sent_lem now now' t (inr (n, e, h)) = rw e (sent_later now now' n h)

read_back_values :
    (key pass ts sig : Text)
    → key ≢ []
    → pass ≢ []
    → ts ≢ []
    → sig ≢ []
    → headers_of_signed (response_of (builder_headers key pass ts sig))
      ≡ ok (builder_headers key pass ts sig)
unfolding headers_of_signed header_get header_set values_of put_values canonical_key get_first
    text_eq
read_back_values [] pass ts sig k p t s = absurd (k refl)
read_back_values (a ∷ key) [] ts sig k p t s = absurd (p refl)
read_back_values (a ∷ key) (b ∷ pass) [] sig k p t s = absurd (t refl)
read_back_values (a ∷ key) (b ∷ pass) (c ∷ ts) [] k p t s = absurd (s refl)
read_back_values (a ∷ key) (b ∷ pass) (c ∷ ts) (d ∷ sig) k p t s = refl

-- The client reads the attribution that the server wrote.
pub read_back : (hd : Header) → IsAttributed hd → headers_of_signed (response_of hd) ≡ ok hd
read_back hd a =
    subst (λ (x : Header). headers_of_signed (response_of x) ≡ ok x) (sym a.made)
      (read_back_values a.key a.passphrase a.timestamp a.signature a.key_given a.passphrase_given
        a.timestamp_given a.signature_given)

module _ (codec : Codec) (host : Host) (server : Server) where
  pub bearer_authorized :
      (url token : Text) (raw : Bytes)
      → token ≡ server.token
      → authorized codec host server
          (signer_request host (record { host = url; token = token }) raw).headers
        ≡ true
  unfolding authorized header_get header_set values_of put_values canonical_key
  bearer_authorized url [] raw e = rw (← e) refl
  bearer_authorized url (c ∷ token) raw e = rw (← e) (text_eq_refl (codes "Bearer " ++ c ∷ token))

  pub bearer_refused :
      (url token : Text) (raw : Bytes)
      → server.token ≢ []
      → token ≢ server.token
      → authorized codec host server
          (signer_request host (record { host = url; token = token }) raw).headers
        ≡ false
  unfolding authorized header_get header_set values_of put_values canonical_key text_eq
  bearer_refused url [] raw given other = rw (is_empty-ne-nil server.token given) refl
  bearer_refused url (c ∷ token) raw given other =
      rw (is_empty-ne-nil server.token given) (text_eq-ne (c ∷ token) server.token other)

  pub admitted :
      (req : HttpRequest) (r : SignRequest) (h : History)
      → req.method ≡ codes "POST"
      → authorized codec host server req.headers ≡ true
      → codec.decode_request req.body ≡ ok r
      → sign_builder codec host server req h ≡ answer_request codec host server r h
  unfolding sign_builder
  admitted req r h post pass read = rw (post, pass, read) refl

  pub turned_away :
      (req : HttpRequest) (h : History)
      → req.method ≡ codes "POST"
      → authorized codec host server req.headers ≡ false
      → sign_builder codec host server req h ≡ status_only 401
  unfolding sign_builder
  turned_away req h post fails = rw (post, fails) refl

  pub signed_answer :
      (r : SignRequest) (hd : Header) (answer : Bytes) (h : History)
      → r.method ≢ []
      → r.path ≢ []
      → (headers host
          (some server.config)
          (to_upper codec.unicode_upper r.method)
          r.path
          (some r.body)
          r.timestamp
          h).0
        ≡ ok hd
      → codec.encode_response (response_of hd) ≡ ok answer
      → (typed : Header) × (answer_request codec host server r h ≡ response 200 typed answer)
  unfolding answer_request
  signed_answer r hd answer h m n p e = (
    header_set (codes "Content-Type") (codes "application/json") [],
    rw (is_empty-ne-nil r.method m, is_empty-ne-nil r.path n, p, answer_signed) (rw e refl),
  )
