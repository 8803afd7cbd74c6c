-- ===== src/Script/Parse/Reparse.antt =====
-- What unparsing writes parses to the same opcodes again, also where it is not the same script.
use eiyaro.Common.{
  ℕ, zero, suc, ◌≡◌, refl, ap, ◌∙◌, List, [], ◌∷◌, ◌++◌, arith, length, All, length-append,
  All-append_right,
}
use mathlib.Core.Path.{subst}
use eiyaro.Script.Outcome.{Result, ok, err}
use eiyaro.Script.Num.{Bytes, IsByte}
use eiyaro.Script.Engine.{ParsedOpcode}
use eiyaro.Script.Parse.{
  table_value, layout, parse_loop, parse_script, prepend, then_parse, join_bytes, unparse_script,
}
use eiyaro.Script.Parse.Round.{Consumed, Round, cut_short, consumed, parse_one-Round}
use eiyaro.Script.Parse.RoundTrip.{layout-table_value}

-- The numbers of the table are final: the entry that an entry's value names has that value.
table_value_twice : (b : ℕ) → table_value (table_value b) ≡ table_value b
unfolding table_value
table_value_twice b = ground arith

-- The opcodes are written as a script of some length that parses to them with some fuel.
pub record Rewritten (fuel len : ℕ) (pops : List ParsedOpcode) : Type 0 where
  pub script : Bytes
  pub written : unparse_script pops ≡ ok script
  pub same_length : length script ≡ len
  pub reparsed : parse_loop fuel script ≡ ok pops

prepend-ok :
    (pop : ParsedOpcode) (r : Result (List ParsedOpcode)) (pops : List ParsedOpcode)
    → prepend pop r ≡ ok pops
    → (others : List ParsedOpcode) × (r ≡ ok others) × (pops ≡ pop ∷ others)
unfolding prepend
prepend-ok pop (err e) pops h = cc
prepend-ok pop (ok others) pops h = (others, refl, cc)

Rewritten-prepend :
    (fuel instr : ℕ) (rest rest' : Bytes) (pop : ParsedOpcode) (pops : List ParsedOpcode)
    → Consumed (layout instr) (table_value instr) rest pop rest'
    → Rewritten fuel (length rest') pops
    → Rewritten (suc fuel) (length (instr ∷ rest)) (pop ∷ pops)
unfolding unparse_script join_bytes parse_loop then_parse prepend
Rewritten-prepend fuel instr rest rest' pop pops c r =
    let l : layout pop.value ≡ layout instr = ap layout c.same_value ∙ layout-table_value instr in
    record {
      script = (table_value instr ∷ c.used) ++ r.script;
      written = rw (l, c.printed, r.written) refl;
      same_length = omega (
        arith,
        r.same_length,
        ap length c.split,
        length-append c.used rest',
        length-append c.used r.script,
      );
      reparsed =
          rw (layout-table_value instr, table_value_twice instr, c.again r.script, r.reparsed) refl;
    }

then_parse-Rewritten :
    (fuel instr : ℕ) (rest : Bytes) (r : Result (ParsedOpcode × Bytes)) (pops : List ParsedOpcode)
    → Round (layout instr) (table_value instr) rest r
    → ((rest' : Bytes) (others : List ParsedOpcode)
        → All IsByte rest'
        → parse_loop fuel rest' ≡ ok others
        → Rewritten fuel (length rest') others)
    → All IsByte rest
    → then_parse (parse_loop fuel) r ≡ ok pops
    → Rewritten (suc fuel) (length (instr ∷ rest)) pops
unfolding then_parse
then_parse-Rewritten fuel instr rest r pops cut_short ih h e = absurd (ground (arith, e))
then_parse-Rewritten fuel instr rest r pops (consumed pop rest' c) ih h e =
    let (others, parsed, same) = prepend-ok pop (parse_loop fuel rest') pops e in
    rw same (
      Rewritten-prepend fuel instr rest rest' pop others c (
        ih rest' others (All-append_right IsByte c.used rest' (subst (All IsByte) c.split h))
          parsed))

Rewritten-nothing : (fuel : ℕ) (pops : List ParsedOpcode) → pops ≡ [] → Rewritten fuel 0 pops
unfolding unparse_script parse_loop
Rewritten-nothing zero pops e = record {
  script = [];
  written = rw e refl;
  same_length = refl;
  reparsed = rw e refl;
}
Rewritten-nothing (suc fuel) pops e = record {
  script = [];
  written = rw e refl;
  same_length = refl;
  reparsed = rw e refl;
}

parse_loop-Rewritten :
    (fuel : ℕ) (script : Bytes) (pops : List ParsedOpcode)
    → All IsByte script
    → parse_loop fuel script ≡ ok pops
    → Rewritten fuel (length script) pops
unfolding parse_loop unparse_script
parse_loop-Rewritten zero [] pops h e = Rewritten-nothing zero pops (cc)
parse_loop-Rewritten zero (b ∷ script) pops h e = absurd (ground (arith, e))
parse_loop-Rewritten (suc fuel) [] pops h e = Rewritten-nothing (suc fuel) pops (cc)
parse_loop-Rewritten (suc fuel) (instr ∷ rest) pops h e =
    then_parse-Rewritten fuel instr rest _ pops
      (parse_one-Round (layout instr) (table_value instr) rest h.1) (parse_loop-Rewritten fuel) h.1
      e

-- A script of bytes that parses is written by unparsing as a script of the same length that parses
-- to the same opcodes, whatever opcodes it has.
pub parse_script-unparse_script :
    (script : Bytes) (pops : List ParsedOpcode)
    → All IsByte script
    → parse_script script ≡ ok pops
    → (script' : Bytes) × (unparse_script pops ≡ ok script')
      × (length script' ≡ length script)
      × (parse_script script' ≡ ok pops)
unfolding parse_script
parse_script-unparse_script script pops h e =
    let r = parse_loop-Rewritten (length script) script pops h e in
    (r.script, r.written, r.same_length, rw r.same_length r.reparsed)
