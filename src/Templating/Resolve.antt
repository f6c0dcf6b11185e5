-- ===== src/Templating/Resolve.antt =====
-- templating.go: the resolution of one template expression.
use httptape.Prelude.{
  ℕ, zero, suc, ◌+◌, ◌/◌, Text, codes, Bool, Option, none, some, List, [], ◌∷◌, ◌++◌, length, take,
  drop, is_empty, strip_prefix, leb, nat_beq, ◌==◌, ◌||◌, text_eq, if◌then◌else◌, ◌>>=◌, lookup,
}
use httptape.Json.{Json, bool, num, str}
use httptape.JsonPath.{parse_path, extract_at_path}
use httptape.Float.{float_equal}
use httptape.Platform.{Platform, Runtime}
use httptape.Int64.{ℤ, pos, ◌+ℤ◌, ltb_ℤ, distance, parse_int, format_int}
use httptape.Header.{canonical_key, get_first}
use httptape.Tape.{hex}
use httptape.Faker.{format_uuid, stamp, compute_hmac}
use httptape.Faker.Typed.{
  Faker, redacted_faker, hmac_faker, email_faker, phone_faker, credit_card_faker, name_faker,
  address_faker, fake,
}
use httptape.Templating.{parse_expr}
use httptape.Templating.Counters.{next}
use httptape.Templating.Substitution.{TemplateCtx, TemplateState, Resolved, resolve_args}

-- args[key], empty where there is none
abbrev arg_or_empty : Text → List (Text × Text) → Text
arg_or_empty key args = elim (lookup key args) [ none ↦ [] | some v ↦ v ]

-- io.ReadFull
unfoldable pub read_full : ℕ → Text → Option (Text × Text)
read_full n source = if leb n (length source) then some (take n source, drop n source) else none

-- url.Values.Get
unfoldable pub query_get : Text → List (Text × List Text) → Text
query_get name [] = []
query_get name ((k, vs) ∷ query) =
    if k == name then elim vs [ [] ↦ [] | v ∷ _ ↦ v ] else query_get name query

-- `val == ""` is an expression that cannot be resolved
abbrev non_empty : Text → Option Text
non_empty v = if is_empty v then none else some v

abbrev bool_text : Bool → Text
bool_text b = if b then codes "true" else codes "false"

module _ (pf : Platform) (rt : Runtime) (ctx : TemplateCtx) where
  unfoldable pub scalar_to_string : Json → Option Text
  scalar_to_string (str s) = some s
  scalar_to_string (num n) =
      if float_equal n (rt.float_of_int64 (rt.int64_of_float n))
      then some (format_int (rt.int64_of_float n))
      else some (pf.format_float n)
  scalar_to_string (bool b) = some (bool_text b)
  scalar_to_string v = none

  unfoldable pub resolve_body_field : (body dot_path : Text) → Option Text
  unfolding scalar_to_string
  resolve_body_field body dot_path = do
    segments ← if is_empty body then none else parse_path (codes "$." ++ dot_path)
    data_in ← pf.unmarshal body
    val ← extract_at_path segments data_in
    scalar_to_string val

  -- `len(rest) > len(prefix) && rest[:len(prefix)] == prefix`, with the part behind it
  abbrev behind : Text → Text → Option Text
  behind prefix rest = strip_prefix prefix rest >>= non_empty

  unfoldable pub resolve_request_expr : (rest : Text) → Option Text
  unfolding resolve_body_field query_get
  resolve_request_expr rest =
      if rest == codes "method"
      then some ctx.req.method
      else if rest == codes "path"
      then some ctx.req.url.path
      else if rest == codes "url"
      then some (rt.url_string ctx.req.url)
      else elim (behind (codes "headers.") rest) [
        | some name ↦ non_empty (get_first (canonical_key name) ctx.req.headers)
        | none ↦ elim (behind (codes "query.") rest) [
          | some name ↦ non_empty (query_get name ctx.req.url.query)
          | none ↦ behind (codes "body.") rest >>= resolve_body_field ctx.req_body
        ]
      ]

  unfoldable pub resolve_now : List (Text × Text) → Text
  resolve_now args =
      let format = arg_or_empty (codes "format") args in
      if is_empty format || format == codes "rfc3339" || format == codes "iso"
      then rt.format_now (codes "2006-01-02T15:04:05Z07:00")
      else if format == codes "unix"
      then format_int (pos rt.unix)
      else if format == codes "unixMillis"
      then format_int (pos rt.unix_milli)
      else rt.format_now format

  -- a value that takes random bytes, if the source has them
  abbrev with_bytes : (Text → Text) → TemplateState → Option (Text × Text) → Resolved
  with_bytes f st none = (none, st)
  with_bytes f st (some (buf, left)) = (some (f buf), record st { rand_source = left })

  unfoldable pub resolve_uuid : TemplateState → Resolved
  unfolding read_full
  resolve_uuid st =
      with_bytes (λ buf. format_uuid (stamp 0x40 buf)) st (read_full 16 st.rand_source)

  -- a positive length, `none` for all else
  abbrev hex_length : Option Text → Option ℕ
  hex_length none = none
  hex_length (some s) = elim (parse_int s) [ some (pos (suc n)) ↦ some (suc n) | _ ↦ none ]

  unfoldable pub resolve_random_hex : List (Text × Text) → TemplateState → Resolved
  unfolding read_full
  resolve_random_hex args st = elim (hex_length (lookup (codes "length") args)) [
    | none ↦ (none, st)
    | some len ↦
        with_bytes (λ buf. take len (hex buf)) st (read_full ((len + 1) / 2) st.rand_source)
  ]

  abbrev bound : ℤ → Option Text → Option ℤ
  bound default_val none = some default_val
  bound default_val (some s) = parse_int s

  abbrev drawn_int : ℤ → TemplateState → Option (ℕ × Text) → Resolved
  drawn_int min_val st none = (none, st)
  drawn_int min_val st (some (n, left)) =
      (some (format_int (pos n +ℤ min_val)), record st { rand_source = left })

  abbrev random_between : ℤ → ℤ → TemplateState → Resolved
  random_between min_val max_val st =
      if ltb_ℤ max_val min_val
      then (none, st)
      else if nat_beq (distance min_val max_val) 0
      then (some (format_int min_val), st)
      else drawn_int min_val st (rt.rand_int (distance min_val max_val + 1) st.rand_source)

  unfoldable pub resolve_random_int : List (Text × Text) → TemplateState → Resolved
  resolve_random_int args st = elim (bound (pos 0) (lookup (codes "min") args)) [
    | none ↦ (none, st)
    | some min_val ↦ elim (bound (pos 100) (lookup (codes "max") args)) [
      | none ↦ (none, st)
      | some max_val ↦ random_between min_val max_val st
    ]
  ]

  abbrev counter_name : Text → Text
  counter_name name = if is_empty name then codes "default" else name

  unfoldable pub resolve_counter : List (Text × Text) → TemplateState → Text × TemplateState
  unfolding next
  resolve_counter args st = elim st.counters [
    | none ↦ (codes "0", st)
    | some cs ↦
        let (val, cs') = next (counter_name (arg_or_empty (codes "name") args)) cs in
        (format_int (pos val), record st { counters = some cs' })
  ]

  unfoldable pub auto_seed : Text
  auto_seed = hex (take 8 (pf.sha256 (ctx.tape_id ++ (b':' ∷ ctx.req.url.path))))

  abbrev seed_of : Text → Text
  seed_of seed = if is_empty seed then auto_seed else seed

  unfoldable pub resolve_faker_uuid : List (Text × Text) → Text
  unfolding auto_seed
  resolve_faker_uuid args =
      let seed = seed_of (arg_or_empty (codes "seed") args) in
      format_uuid (stamp 0x40 (take 16 (compute_hmac pf seed seed)))

  -- the switch of `resolveFaker`, the UUID apart
  unfoldable pub faker_of : Text → Option Faker
  faker_of faker_type =
      if faker_type == codes "email"
      then some email_faker
      else if faker_type == codes "name"
      then some name_faker
      else if faker_type == codes "phone"
      then some phone_faker
      else if faker_type == codes "address"
      then some address_faker
      else if faker_type == codes "creditCard"
      then some credit_card_faker
      else if faker_type == codes "hmac"
      then some hmac_faker
      else if faker_type == codes "redacted"
      then some redacted_faker
      else none

  -- `%v` of a string; these fakers give a string for a string
  abbrev printed : Option Json → Option Text
  printed (some (str s)) = some s
  printed _ = none

  unfoldable pub resolve_faker : Text → List (Text × Text) → Option Text
  unfolding faker_of resolve_faker_uuid
  resolve_faker faker_type args =
      if faker_type == codes "uuid" then some (resolve_faker_uuid args) else do
        faker ← faker_of faker_type
        let seed = seed_of (arg_or_empty (codes "seed") args)
        printed (fake pf rt faker seed (str seed))

  abbrev path_param : Text → Option (List (Text × Text)) → Option Text
  path_param name none = none
  path_param name (some params) = lookup name params

  abbrev helper : Text → List (Text × Text) → TemplateState → Resolved
  helper name args st =
      if name == codes "now"
      then (some (resolve_now args), st)
      else if name == codes "uuid"
      then resolve_uuid st
      else if name == codes "randomHex"
      then resolve_random_hex args st
      else if name == codes "randomInt"
      then resolve_random_int args st
      else if name == codes "counter"
      then (let (val, st') = resolve_counter args st in (some val, st'))
      else elim (strip_prefix (codes "faker.") name) [
        | some faker_type ↦ (resolve_faker faker_type args, st)
        | none ↦ (none, st)
      ]

  -- the switch of `resolveExpr`, with the arguments resolved
  unfoldable pub dispatch : Text → List (Text × Text) → TemplateState → Resolved
  unfolding resolve_request_expr resolve_now resolve_uuid resolve_random_hex resolve_random_int
      resolve_counter resolve_faker
  dispatch name args st = elim (strip_prefix (codes "request.") name) [
    | some rest ↦ (resolve_request_expr rest, st)
    | none ↦ elim (strip_prefix (codes "pathParam.") name) [
      | some param ↦ (path_param param ctx.path_params, st)
      | none ↦ helper name args st
    ]
  ]

  -- `resolveExpr`; an expression in an argument is shorter than the one that it stands in, so there
  -- are fewer levels than bytes
  unfoldable pub resolve_expr_from : ℕ → Text → TemplateState → Resolved
  unfolding dispatch resolve_args
  resolve_expr_from zero expr st = (none, st)
  resolve_expr_from (suc fuel) expr st =
      let pe = parse_expr expr in
      let (args, st') = resolve_args (resolve_expr_from fuel) pe.args st in
      if is_empty pe.name then (none, st) else dispatch pe.name args st'

  unfoldable pub resolve_expr : Text → TemplateState → Resolved
  unfolding resolve_expr_from
  resolve_expr expr st = resolve_expr_from (suc (length expr)) expr st
