-- ===== src/Tests/Templates.antt =====
-- The theorems on template expressions at sample values.
use httptape.Prelude.{
  suc, ◌%◌, ◌^◌, Text, codes, ◌≡◌, refl, strip_prefix, text_beq, lookup, none, some, [], ◌∷◌, arith,
}
use httptape.MediaType.{trim_space}
use httptape.Int64.{format_int}
use httptape.Decimal.{decimal_from}
use httptape.Templating.{index_open, scan_template_exprs, parse_expr}
use httptape.Templating.Counters.{Counters, next, next_times, reset, count, next-next_times}
use httptape.Templating.Scanning.{IsScan, scan_template_exprs-IsScan}
use httptape.Templating.Resolve.{resolve_expr, resolve_expr_from}
use httptape.Templating.Substitution.{TemplateCtx, TemplateState}
use httptape.Templating.Fuel.{resolve_expr-eq}
use httptape.Tests.{platform, runtime, request}

abbrev counters : Counters
counters = (codes "orders", 41) ∷ (codes "default", 7) ∷ []

abbrev source : Text
source = codes "id={{counter name=orders}} {{faker.email seed={{request.path}}}} {{"

abbrev ctx : TemplateCtx
ctx = record { req = request; req_body = codes "{u}"; path_params = none; tape_id = codes "t1" }

abbrev state : TemplateState
state = record { counters = some counters; rand_source = [] }

next-next_times_example :
    ((next (codes "orders") (next_times 2 (codes "orders") (reset (codes "orders") counters))).0
      ≡ suc 2 % 2 ^ 63)
    × (count (codes "default") (next_times 2 (codes "orders") (reset (codes "orders") counters))
        ≡ count (codes "default") (reset (codes "orders") counters))
next-next_times_example = next-next_times 2 (codes "orders") (codes "default") counters cc

scan_template_exprs-IsScan_example : IsScan source 0 (scan_template_exprs source)
scan_template_exprs-IsScan_example = scan_template_exprs-IsScan source

resolve_expr-eq_example :
    resolve_expr_from platform runtime ctx 100 (codes "counter name={{request.path}}") state
    ≡ resolve_expr platform runtime ctx (codes "counter name={{request.path}}") state
resolve_expr-eq_example =
    resolve_expr-eq platform runtime ctx 100 (codes "counter name={{request.path}}") state
      (omega arith)

-- a counter that stands at 7, and a text with a nested expression and an opening that is not closed
resolved_counter : (resolve_expr platform runtime ctx (codes "counter") state).0 ≡ some (codes "8")
unfolding resolve_expr parse_expr scan_template_exprs index_open trim_space strip_prefix text_beq
    format_int decimal_from lookup
resolved_counter = refl

scanned_source :
    scan_template_exprs (codes "{{a {{b}}}} {{")
    ≡ record { raw = codes "a {{b}}"; start = 0; end = 11 } ∷ []
unfolding scan_template_exprs index_open trim_space
scanned_source = refl
