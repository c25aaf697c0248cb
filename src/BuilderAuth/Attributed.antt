-- ===== src/BuilderAuth/Attributed.antt =====
-- The headers of an attribution.
use go_builder_relayer_clien.Prelude.{
  ◌≡◌, ◌≢◌, subst, sym, arith, false, ◌||◌, List, [], ◌∷◌, Text, codes, is_empty, if◌then◌else◌,
  Bool-cases, inl, inr,
}
use go_builder_relayer_clien.Golang.Header.{
  Header, header_get, header_set, values_of, put_values, canonical_key,
}
use go_builder_relayer_clien.Errors.{plain, Result, ok, err, ok-injective}
use go_builder_relayer_clien.BuilderAuth.{
  headers_of_signed, get_first, builder_headers, header_poly_builder_api_key,
  header_poly_builder_passphrase, header_poly_builder_signature, header_poly_builder_timestamp,
}

-- Each of the four headers is there and not empty.
pub record IsComplete (hd : Header) : Type 0 where
  pub has_key : header_get header_poly_builder_api_key hd ≢ []
  pub has_passphrase : header_get header_poly_builder_passphrase hd ≢ []
  pub has_timestamp : header_get header_poly_builder_timestamp hd ≢ []
  pub has_signature : header_get header_poly_builder_signature hd ≢ []

pub ne-nil : (s : Text) → is_empty s ≡ false → s ≢ []
ne-nil [] p = cc
ne-nil (c ∷ s) p = cc

-- The headers are the four of an attribution, with these values.
pub record IsAttributed (hd : Header) : Type 0 where
  pub key : Text
  pub passphrase : Text
  pub timestamp : Text
  pub signature : Text
  pub key_given : key ≢ []
  pub passphrase_given : passphrase ≢ []
  pub timestamp_given : timestamp ≢ []
  pub signature_given : signature ≢ []
  pub made : hd ≡ builder_headers key passphrase timestamp signature

builder_headers-IsComplete :
    (key pass ts sig : Text)
    → key ≢ []
    → pass ≢ []
    → ts ≢ []
    → sig ≢ []
    → IsComplete (builder_headers key pass ts sig)
unfolding header_get header_set values_of put_values canonical_key
builder_headers-IsComplete key pass ts sig k p t s = record {
  has_key = k;
  has_passphrase = p;
  has_timestamp = t;
  has_signature = s;
}

pub IsAttributed-IsComplete : {hd : Header} → IsAttributed hd → IsComplete hd
IsAttributed-IsComplete a = subst IsComplete (sym a.made) (
    builder_headers-IsComplete a.key a.passphrase a.timestamp a.signature a.key_given
      a.passphrase_given a.timestamp_given a.signature_given)

pub attributed :
    (key pass ts sig : Text) {hd : Header}
    → is_empty key ≡ false
    → is_empty pass ≡ false
    → ts ≢ []
    → sig ≢ []
    → builder_headers key pass ts sig ≡ hd
    → IsAttributed hd
attributed key pass ts sig k p t s e = record {
  key = key;
  passphrase = pass;
  timestamp = ts;
  signature = sig;
  key_given = ne-nil key k;
  passphrase_given = ne-nil pass p;
  timestamp_given = t;
  signature_given = s;
  made = sym e;
}

-- What a signer returns is an attribution, if it returns.
abbrev pub Completes : Result Header → Type 0
Completes r = (hd : Header) → r ≡ ok hd → IsAttributed hd

checked_complete :
    (key pass sig ts : Text)
    → Completes (
        if is_empty key || (is_empty pass || (is_empty sig || is_empty ts))
        then err (plain (codes "invalid builder headers response"))
        else ok (builder_headers key pass ts sig))
checked_complete key pass sig ts hd p =
    elim (Bool-cases (is_empty key || (is_empty pass || (is_empty sig || is_empty ts)))) [
      | inl bad ↦ cc (rw bad at p)
      | inr good ↦
          attributed key pass ts sig (ground arith) (ground arith) (ne-nil ts (ground arith))
            (ne-nil sig (ground arith)) (ok-injective (rw good at p))
    ]

pub headers_of_signed_complete : (raw : List (Text × Text)) → Completes (headers_of_signed raw)
unfolding headers_of_signed
headers_of_signed_complete raw =
    checked_complete
      (get_first
        (header_poly_builder_api_key
          ∷ codes "poly_builder_api_key"
          ∷ codes "POLY_BUILDER_API_KEY"
          ∷ [])
        raw)
      (get_first
        (header_poly_builder_passphrase
          ∷ codes "poly_builder_passphrase"
          ∷ codes "POLY_BUILDER_PASSPHRASE"
          ∷ [])
        raw)
      (get_first
        (header_poly_builder_signature
          ∷ codes "poly_builder_signature"
          ∷ codes "POLY_BUILDER_SIGNATURE"
          ∷ [])
        raw)
      (get_first
        (header_poly_builder_timestamp
          ∷ codes "poly_builder_timestamp"
          ∷ codes "POLY_BUILDER_TIMESTAMP"
          ∷ [])
        raw)
