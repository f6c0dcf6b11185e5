-- ===== src/Platform.antt =====
-- What the sources call and do not implement: SHA-256 and HMAC, encoding/json, net/url, mime and
-- the printing of a float. Each is a parameter of the definitions that use it.
use httptape.Prelude.{ℕ, ◌<◌, Text, ◌≡◌, Option, List, length, All}
use httptape.Json.{Json}
use httptape.Int64.{ℤ}

-- The parts of a `url.URL` that the matchers read: `Path`, and `Query()` as a list of entries.
pub record Url : Type 0 where
  pub path : Text
  pub query : List (Text × List Text)

pub record Platform : Type 0 where
  -- sha256.Sum256 and hmac.New(sha256.New, key)
  pub sha256 : Text → Text
  pub hmac_sha256 : Text → Text → Text
  -- json.Unmarshal into an `any`, and json.Marshal; `none` is an error
  pub unmarshal : Text → Option Json
  pub marshal : Json → Option Text
  -- url.Parse
  pub parse_url : Text → Option Url
  -- mime.ParseMediaType: the media type and its parameters
  pub parse_mime : Text → Option (Text × List (Text × Text))
  -- strconv.ParseFloat(s, 64)
  pub parse_float : Text → Option ℕ
  -- strconv.FormatFloat(v, 'f', -1, 64)
  pub format_float : ℕ → Text

-- Digests have 32 bytes.
pub record HasDigests (pf : Platform) : Type 0 where
  pub hmac_length : (key message : Text) → length (pf.hmac_sha256 key message) ≡ 32
  pub hmac_bytes : (key message : Text) → All (λ b. b < 256) (pf.hmac_sha256 key message)

-- A compiled `regexp.Regexp`: `FindStringSubmatch` with the name of each submatch, nil where the
-- text does not match.
abbrev pub Regexp : Type 0
Regexp = Text → Option (List (Text × Text))

-- The clock, the random source, and more of the standard library.
pub record Runtime : Type 0 where
  -- time.Date(2000, 1, 1, …).AddDate(0, 0, days).Format(layout)
  pub format_date : (layout : Text) → (days : ℕ) → Text
  -- time.Now().UTC(), formatted, and as a number of seconds and of milliseconds since 1970
  pub format_now : (layout : Text) → Text
  pub unix : ℕ
  pub unix_milli : ℕ
  -- time.ParseDuration, in nanoseconds
  pub parse_duration : Text → Option ℤ
  -- rand.Int(source, max): a number below `max`, and what is left of the source
  pub rand_int : ℕ → Text → Option (ℕ × Text)
  -- url.URL.String
  pub url_string : Url → Text
  -- int64(f) and float64(n), math.Trunc
  pub int64_of_float : ℕ → ℤ
  pub float_of_int64 : ℤ → ℕ
  pub trunc : ℕ → ℕ
  -- time.Duration(float64(n) * factor)
  pub scale : (n factor : ℕ) → ℕ
  -- fmt's `%q as …: %w`, of a value that the coercion refuses and the error of `strconv`
  pub refusal : (coercion value : Text) → Text
  -- regexp.Compile and regexp.QuoteMeta
  pub compile : Text → Option Regexp
  pub quote_meta : Text → Text
