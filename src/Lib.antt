-- ===== src/Lib.antt =====
-- A model of the Go client of a transaction relayer: it builds and signs requests for Safe and proxy
-- wallets, sends them with attribution headers, and waits for the transactions.
--
-- The parts, and the files of the repository that they model:
--   Errors       pkg/errors/errors.go, and the HTTPError of http_client.go: codes, declared errors,
--                messages, errors.Is
--   Types        pkg/types/types.go and pkg/types/constants.go
--   Config       config.go: the contracts of the chains 137 and 80002
--   Utils        internal/utils/utils.go: ParseBigInt, LeftPad32, DecodeHex, SplitAndPackSig
--   Encoder      internal/encoder: the packed MultiSend batch and the proxy call data
--   Signer       pkg/signer/signer.go: the interface, and the signer with a private key
--   Builder      internal/builder: wallet derivation, and the requests for proxies and Safes
--   Http         http_client.go: HTTPClient.Do with its retries, and sleepWithContext of client.go;
--                Http/Protocol: what the server sees of it, as a relation; Http/Counter:
--                its loop with a counter of 64 bits
--   BuilderAuth  builder_auth.go: the attribution headers, local, remote and with the fallback
--   Client       client.go, endpoints.go, response.go and derive.go: the operations of RelayClient;
--                Client/Session: programs that call any of one client's operations that ask the
--                relayer
--   Logger       pkg/logger/logger.go: levels, loggers, the default logger, and threads that share one
--   Examples     the three programs of examples: basic, end_to_end and remote_signer_server
--   Effects      the monad of effectful code and its surroundings
--   Golang       what the code uses of Go's standard library: strconv, strings, math/big, hex,
--                base64, http.Header and url.Values
--   Ethereum     what the code uses of go-ethereum, as a record of functions
--   Prelude      numbers, lists, texts and tests that the parts share
--   Tests        concrete surroundings and runs
--
-- How the parts work together: Client derives the Safe of the signer (Builder), asks the relayer
-- (Http, with the headers of BuilderAuth), has a request built and signed (Builder, Encoder,
-- Utils, Signer), and submits it. Each operation is a function of the history of events, newest
-- first; the network, the timers, the context and the clock answer by that history, so a proof
-- over all `Host` values covers every behaviour of the surroundings. An operation that returns
-- `(T, error)` gives a `Result`; a panic of an example program is an error. What HTTPClient.Do
-- logs is in the history; the loggers themselves are a world of their own. Functions have the
-- names of the Go functions, in lower case with underscores.
--
-- Numbers: an int64 is the type ℤ with its wrap-around written out, a big.Int is ℤ without bounds, a
-- byte is a number. A text is the list of its bytes.
--
-- Loops: the retry loop recurses on the rounds that are left, which is maxRetries + 1 at the start.
-- That is the Go loop for maxRetries below 2 ^ 64 - 1. Http/Counter has the loop with the counter of
-- the Go code, a uint that wraps around, on a fuel of as many tests of its condition. The poll loop
-- recurses on the polls that are left. The digits of a number recurse on a fuel that is the number
-- itself, and reading a batch on the length of its bytes, both of which are more than the steps that
-- are taken.
--
-- Not modelled: encoding/json, HMAC-SHA256, the parser of net/url, http.ParseTime and the checks
-- of http.NewRequestWithContext, which are functions of `Host`; Keccak, CREATE2, ABI packing,
-- EIP-712 hashing and the elliptic curve, which are functions of `Ethereum` and `Curve`;
-- fmt.Sprintf and the time stamps of the package log; a logger of the user's own; the order in
-- which a Go map is walked, which is that of the list; the field sleepFn, which is always
-- sleepWithContext; the nil context, which is the background one; the programs of scripts.
pub mod Prelude
pub mod Golang
pub mod Errors
pub mod Types
pub mod Ethereum
pub mod Utils
pub mod Encoder
pub mod Config
pub mod Signer
pub mod Builder
pub mod Effects
pub mod Http
pub mod BuilderAuth
pub mod Client
pub mod Logger
pub mod Examples
pub mod Tests
