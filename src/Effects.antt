-- ===== src/Effects.antt =====
-- What the client asks of its surroundings, and the monad of its effectful code: a computation
-- extends the history of events, newest first, and returns a result.
pub mod Preserves
use go_builder_relayer_clien.Prelude.{ℕ, ◌≡◌, refl, ap, Option, List, ◌∷◌, Text, Bytes}
use go_builder_relayer_clien.Prelude.Int.{ℤ}
use go_builder_relayer_clien.Golang.Header.{Header}
use go_builder_relayer_clien.Errors.{Error, Result, ok, err}
use go_builder_relayer_clien.Types.{
  NoncePayload, RelayPayload, RelayerTransaction, RelayerTransactionResponse, GetDeployedResponse,
  TransactionRequest,
}

pub record HttpRequest : Type 0 where
  pub method : Text
  pub url : Text
  pub headers : Header
  pub body : Bytes

-- What comes of one request: http.Client.Do fails, the body of a response with this status breaks off
-- behind these bytes, or a response.
pub data Reply : Type 0 where
  failed : Error → Reply
  broken : ℕ → Bytes → Error → Reply
  response : ℕ → Header → Bytes → Reply

-- the calls of pkg/logger, by their format; the arguments of an attempt are its number and the total
pub data LogLine : Type 0 where
  request_failed read_failed retryable_status : Text → Text → ℕ → ℕ → LogLine
  gave_up : Error → LogLine

pub data Event : Type 0 where
  -- a request to the relayer, and one to the remote signer
  exchange : HttpRequest → Reply → Event
  signer_exchange : HttpRequest → Reply → Event
  -- a timer, and the error of the context if that came first
  slept : ℤ → Option Error → Event
  -- a look at ctx.Done() that does not wait
  checked : Option Error → Event
  warned : LogLine → Event
  errored : LogLine → Event

abbrev pub History : Type 0
History = List Event

-- url.URL, as far as the client changes it
pub record Url : Type 0 where
  pub base : Text
  pub raw_query : Text

-- The payload of a remote signing request; a timestamp of `none` is left out.
pub record SignPayload : Type 0 where
  pub method : Text
  pub path : Text
  pub body : Text
  pub timestamp : Option ℤ

-- The surroundings. The network, the timers, the context and the clock may answer by all that
-- happened before. The rest are functions of Go's standard library that the model does not spell
-- out: net/url's parser, the checks of http.NewRequestWithContext, http.ParseTime, encoding/json and
-- HMAC-SHA256.
pub record Host : Type 0 where
  pub round_trip : History → HttpRequest → Reply
  pub signer_trip : History → HttpRequest → Reply
  pub timer : History → ℤ → Option Error
  pub ctx_done : History → Option Error
  -- time.Now() in nanoseconds
  pub now : History → ℤ
  pub parse_url : Text → Result Url
  pub url_string : Url → Text
  pub new_request : Text → Text → Result (Unit {0})
  pub parse_time : Text → Option ℤ
  pub hmac_sha256 : Bytes → Bytes → Bytes
  pub marshal_request : TransactionRequest → Result Bytes
  pub marshal_sign_payload : SignPayload → Result Bytes
  -- json.Decoder on a body that ends, or breaks off with an error, behind these bytes
  pub decode_signed : Bytes → Option Error → Result (List (Text × Text))
  pub decode_nonce : Bytes → Result NoncePayload
  pub decode_relay : Bytes → Result RelayPayload
  pub decode_transactions : Bytes → Result (List RelayerTransaction)
  pub decode_deployed : Bytes → Result GetDeployedResponse
  pub decode_submitted : Bytes → Result RelayerTransactionResponse

abbrev pub Go : Type 0 → Type 0
Go A = History → Result A × History

-- how a computation goes on behind a result
abbrev pub resume : {A B : Type 0} → Result A → (A → Go B) → Go B
resume (ok a) f h = f a h
resume (err e) f h = (err e, h)

infixl 5 ◌>>=◌ ◌>>◌
abbrev pub ◌>>=◌ : {A B : Type 0} → Go A → (A → Go B) → Go B
◌>>=◌ m f h = resume (m h).0 f (m h).1

abbrev pub ◌>>◌ : {B : Type 0} → Go (Unit {0}) → Go B → Go B
m >> k = m >>= λ _. k

abbrev pub lift : {A : Type 0} → Result A → Go A
lift r h = (r, h)

abbrev pub pure : {A : Type 0} → A → Go A
pure a = lift (ok a)

abbrev pub fail : {A : Type 0} → Error → Go A
fail e = lift (err e)

abbrev pub emit : Event → Go (Unit {0})
emit e h = (ok tt, e ∷ h)

-- what the surroundings answer now
abbrev pub ask : {A : Type 0} → (History → A) → Go A
ask f h = (ok (f h), h)

resume_inversion :
    {A B : Type 0} (r : Result A) (f : A → Go B) (h : History) {b : B} {h' : History}
    → resume r f h ≡ (ok b, h')
    → (a : A) × (r ≡ ok a) × (f a h ≡ (ok b, h'))
resume_inversion (ok a) f h e = (a, refl, e)
resume_inversion {B} (err x) f h e = cc (ap (λ (p : Result B × History). p.0) e)

-- A computation that returns went through each of its steps.
pub >>=-returns :
    {A B : Type 0} (m : Go A) (f : A → Go B) (h : History) {b : B} {h' : History}
    → (m >>= f) h ≡ (ok b, h')
    → (a : A) × ((m h).0 ≡ ok a) × (f a (m h).1 ≡ (ok b, h'))
>>=-returns m f h e = resume_inversion (m h).0 f (m h).1 e
