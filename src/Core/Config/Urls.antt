-- ===== src/Core/Config/Urls.antt =====
-- What a client makes of `redis_url`: the password, the host, the port and the path.
use llm_inference_logger.Prelude.{
  ℕ, ◌<◌, ◌≡◌, refl, sym, ap, ◌∙◌, Option, none, some, List, [], ◌∷◌, ◌++◌, append_assoc, arith,
  Text, codes, if◌then◌else◌, All, All-append, All-map, decimal-digits, false,
}
use llm_inference_logger.Core.Config.Client.{
  before_last, after_last, is_stop, past, until, unquote, has, is_at, is_colon, Address, read_url,
}
use llm_inference_logger.Core.Config.Quote.{
  quote_bytes, utf8, quote, has_surrogate, is_surrogate, encode_error,
}
use llm_inference_logger.Core.Config.{shown, redis_url, Settings, auth, url_of}
use llm_inference_logger.Core.Config.Split.{
  Free, until-append, is_delimiter, has-Free, past-append, has-append, before_last-append,
  after_last-Free, after_last-append,
}
use llm_inference_logger.Core.Config.Bytes.{IsByte, quote_bytes-Free, utf8-IsByte, unquote-quote}
use llm_inference_logger.Prelude.Outcome.{ok, err}

shown-Free : (n : ℕ) → Free is_delimiter (shown n)
unfolding shown
shown-Free n = All-map _ _ (shown n) (λ c h. ground (arith, h)) (decimal-digits n)

-- A text that is free of delimiters passes each of the three tests.
Free-stop : (t : Text) → Free is_delimiter t → Free is_stop t
Free-stop t h = All-map _ _ t (λ c e. ground (arith, e)) h

Free-at : (t : Text) → Free is_delimiter t → Free is_at t
Free-at t h = All-map _ _ t (λ c e. ground (arith, e)) h

Free-colon : (t : Text) → Free is_delimiter t → Free is_colon t
Free-colon t h = All-map _ _ t (λ c e. ground (arith, e)) h

-- What is read of an authority and a path.
abbrev address : Text → Text → Address
unfolding until past before_last after_last unquote
address net path = record {
  password = if has is_at net then some (unquote (past is_colon (before_last is_at net))) else none;
  host = until is_colon (after_last is_at net);
  port = past is_colon (after_last is_at net);
  path = path;
}

read_url-address :
    (net path : Text)
    → Free is_stop net
    → read_url (codes "redis://" ++ (net ++ 47 ∷ path)) ≡ address net path
unfolding read_url address
read_url-address net path h =
    cc (until-append is_stop net 47 path h refl, past-append is_stop net 47 path h refl)

-- The host and the port, of an authority without user information.
address-plain :
    (host port path : Text)
    → Free is_delimiter host
    → Free is_delimiter port
    → address (host ++ 58 ∷ port) path
      ≡ record { password = none; host = host; port = port; path = path }
unfolding address
address-plain host port path h k =
    let free : Free is_at (host ++ 58 ∷ port) =
      All-append _ host (58 ∷ port) (Free-at host h) (refl, Free-at port k) in
    rw
      (
        has-Free is_at _ free,
        after_last-Free is_at _ free,
        until-append is_colon host 58 port (Free-colon host h) refl,
        past-append is_colon host 58 port (Free-colon host h) refl,
      )
      refl

-- The same behind a quoted password.
address-password :
    (bs : List ℕ) (host port path : Text)
    → All IsByte bs
    → Free is_delimiter host
    → Free is_delimiter port
    → address ((58 ∷ quote_bytes bs) ++ 64 ∷ (host ++ 58 ∷ port)) path
      ≡ record { password = some bs; host = host; port = port; path = path }
unfolding address
address-password bs host port path b h k =
    let free : Free is_at (host ++ 58 ∷ port) =
      All-append _ host (58 ∷ port) (Free-at host h) (refl, Free-at port k) in
    let quoted = quote_bytes bs in
    rw
      (
        has-append is_at quoted 64 (host ++ 58 ∷ port) refl,
        before_last-append is_at quoted 64 (host ++ 58 ∷ port) refl free,
        after_last-append is_at quoted 64 (host ++ 58 ∷ port) refl free,
        until-append is_colon host 58 port (Free-colon host h) refl,
        past-append is_colon host 58 port (Free-colon host h) refl,
        unquote-quote bs b,
      )
      refl

-- The bytes that a client has to send.
abbrev pub sent : Option Text → Option (List ℕ)
unfolding utf8
sent none = none
sent (some []) = none
sent (some (c ∷ p)) = some (utf8 (c ∷ p))

-- A code point that is no surrogate.
abbrev pub IsScalar : ℕ → Type 0
IsScalar c = (c < 1114112) × (is_surrogate c ≡ false)

abbrev pub IsText : Option Text → Type 0
IsText none = Unit
IsText (some p) = All IsScalar p

has_surrogate-IsScalar : (t : Text) → All IsScalar t → has_surrogate t ≡ false
has_surrogate-IsScalar [] h = refl
has_surrogate-IsScalar (c ∷ t) h = rw h.0.1 (has_surrogate-IsScalar t h.1)

quote-IsScalar : (t : Text) → All IsScalar t → quote t ≡ ok (quote_bytes (utf8 t))
unfolding quote
quote-IsScalar t h =
    ap (λ b. if b then err encode_error else ok (quote_bytes (utf8 t))) (has_surrogate-IsScalar t h)

-- The URL without, and with, a password.
module _ (host port : Text) (h : Free is_delimiter host) (k : Free is_delimiter port) where
  stop-Free : Free is_stop (host ++ 58 ∷ port)
  stop-Free = All-append _ host (58 ∷ port) (Free-stop host h) (refl, Free-stop port k)

  read_url-plain :
      read_url (codes "redis://" ++ (host ++ 58 ∷ (port ++ codes "/0")))
      ≡ record { password = none; host = host; port = port; path = codes "0" }
  read_url-plain =
      ap (λ t. read_url (codes "redis://" ++ t)) (sym (append_assoc host (58 ∷ port) (codes "/0")))
      ∙ read_url-address (host ++ 58 ∷ port) (codes "0") stop-Free
      ∙ address-plain host port (codes "0") h k

  read_url-password :
      (bs : List ℕ)
      → All IsByte bs
      → read_url (
          codes "redis://"
          ++ (58 ∷ (quote_bytes bs ++ 64 ∷ []) ++ (host ++ 58 ∷ (port ++ codes "/0"))))
        ≡ record { password = some bs; host = host; port = port; path = codes "0" }
  read_url-password bs b =
      let net = 58 ∷ quote_bytes bs ++ 64 ∷ (host ++ 58 ∷ port) in
      let same : 58 ∷ (quote_bytes bs ++ 64 ∷ []) ++ (host ++ 58 ∷ (port ++ codes "/0"))
          ≡ net ++ codes "/0" =
        simp append_assoc in
      let free : Free is_stop net = (
        refl,
        All-append _ (quote_bytes bs) (64 ∷ (host ++ 58 ∷ port))
            (Free-stop _ (quote_bytes-Free bs b)) (refl, stop-Free),
      ) in
      ap (λ t. read_url (codes "redis://" ++ t)) same
      ∙ read_url-address net (codes "0") free
      ∙ address-password bs host port (codes "0") b h k

-- Where the host has no delimiter of a URL in it and the password, if there is one, consists of code
-- points that are no surrogates, `redis_url` is built, and a client of it sends the password that was
-- set, whichever of these characters are in it, to the host and port that were set, and asks for
-- database 0; where no password or an empty one was set it sends none.
pub read_url-redis_url :
    (s : Settings)
    → Free is_delimiter s.redis_host
    → IsText s.redis_password
    → (url : Text) × (redis_url s ≡ ok url)
      × (read_url url ≡ record {
        password = sent s.redis_password;
        host = s.redis_host;
        port = shown s.redis_port;
        path = codes "0";
      })
unfolding redis_url sent
read_url-redis_url s h w = at s.redis_password w
  where
    at :
        (pw : Option Text)
        → IsText pw
        → (url : Text) × (elim (auth pw) [ ok user ↦ ok (url_of user s) | err e ↦ err e ] ≡ ok url)
          × (read_url url ≡ record {
            password = sent pw;
            host = s.redis_host;
            port = shown s.redis_port;
            path = codes "0";
          })
    at none w = (
      url_of [] s,
      refl,
      read_url-plain s.redis_host (shown s.redis_port) h (shown-Free s.redis_port),
    )
    at (some []) w = (
      url_of [] s,
      refl,
      read_url-plain s.redis_host (shown s.redis_port) h (shown-Free s.redis_port),
    )
    at (some (c ∷ p)) w = (
      url_of (codes ":" ++ (quote_bytes (utf8 (c ∷ p)) ++ codes "@")) s,
      rw (quote-IsScalar (c ∷ p) w) refl,
      read_url-password s.redis_host (shown s.redis_port) h (shown-Free s.redis_port) (utf8 (c ∷ p))
          (utf8-IsByte (c ∷ p) (All-map _ _ (c ∷ p) (λ d e. e.0) w)),
    )
