-- ===== src/Script/Parse/RoundTrip.antt =====
-- Parsing is total, and unparsing gives back the bytes that were parsed.
use mathlib.Core.Path.{subst}
use eiyaro.Common.{
  ℕ, zero, suc, ◌≤◌, ◌<◌, ◌≡◌, ◌⊎◌, inl, inr, refl, sym, ap, ◌∙◌, List, [], ◌∷◌, arith, length, All,
  length-append, All-append_right,
}
use eiyaro.Script.Outcome.{Result, ok, err, malformed_push}
use eiyaro.Script.Num.{Bytes, IsByte}
use eiyaro.Script.Engine.{ParsedOpcode}
use eiyaro.Script.Parse.{
  table_value, layout, parse_loop, parse_script, prepend, then_parse, join_bytes, unparse_script,
}
use eiyaro.Script.Parse.Round.{Consumed, Round, cut_short, consumed, parse_one-Round}

-- The values of the table entries 178 to 187 are those of ten places on.
abbrev pub IsPlain : ParsedOpcode → Type 0
IsPlain pop = (pop.value < 188) ⊎ (197 < pop.value)

table_value_plain : (b : ℕ) → (table_value b < 188) ⊎ (197 < table_value b) → table_value b ≡ b
unfolding table_value
table_value_plain b h = ground arith

pub layout-table_value : (b : ℕ) → layout (table_value b) ≡ layout b
unfolding table_value layout
layout-table_value b = ground arith

-- What parsing makes of a script, once it has fuel enough.
data Parsed (script : Bytes) : Result (List ParsedOpcode) → Type 0 where
  malformed : Parsed script (err malformed_push)
  parsed :
      (pops : List ParsedOpcode)
      → (All IsPlain pops → unparse_script pops ≡ ok script)
      → Parsed script (ok pops)

unparse-prepend :
    (instr : ℕ) (rest rest' : Bytes) (pop : ParsedOpcode) (pops : List ParsedOpcode)
    → Consumed (layout instr) (table_value instr) rest pop rest'
    → IsPlain pop
    → unparse_script pops ≡ ok rest'
    → unparse_script (pop ∷ pops) ≡ ok (instr ∷ rest)
unfolding unparse_script join_bytes
unparse-prepend instr rest rest' pop pops c plain e =
    let v : table_value instr ≡ instr =
      table_value_plain instr (subst (λ t. (t < 188) ⊎ (197 < t)) c.same_value plain) in
    let l : layout pop.value ≡ layout instr = ap layout c.same_value ∙ layout-table_value instr in
    rw (l, c.printed, e, v) (ap (λ t. ok (instr ∷ t)) (sym c.split))

prepend-Parsed :
    (instr : ℕ) (rest rest' : Bytes) (pop : ParsedOpcode) (r : Result (List ParsedOpcode))
    → Consumed (layout instr) (table_value instr) rest pop rest'
    → Parsed rest' r
    → Parsed (instr ∷ rest) (prepend pop r)
unfolding prepend
prepend-Parsed instr rest rest' pop r c malformed = malformed
prepend-Parsed instr rest rest' pop r c (parsed pops u) =
    parsed (pop ∷ pops) (λ plain. unparse-prepend instr rest rest' pop pops c plain.0 (u plain.1))

then_parse-Parsed :
    (fuel instr : ℕ) (rest : Bytes) (r : Result (ParsedOpcode × Bytes))
    → Round (layout instr) (table_value instr) rest r
    → ((rest' : Bytes)
        → All IsByte rest'
        → length rest' ≤ fuel
        → Parsed rest' (parse_loop fuel rest'))
    → All IsByte rest
    → length rest ≤ fuel
    → Parsed (instr ∷ rest) (then_parse (parse_loop fuel) r)
unfolding then_parse
then_parse-Parsed fuel instr rest r cut_short ih h l = malformed
then_parse-Parsed fuel instr rest r (consumed pop rest' c) ih h l =
    prepend-Parsed instr rest rest' pop (parse_loop fuel rest') c (
      ih rest' (All-append_right IsByte c.used rest' (subst (All IsByte) c.split h))
        (omega (arith, l, ap length c.split, length-append c.used rest')))

parse_loop-Parsed :
    (fuel : ℕ) (script : Bytes)
    → All IsByte script
    → length script ≤ fuel
    → Parsed script (parse_loop fuel script)
unfolding parse_loop unparse_script
parse_loop-Parsed zero [] h l = parsed [] (λ plain. refl)
parse_loop-Parsed zero (b ∷ script) h l = absurd (omega arith)
parse_loop-Parsed (suc fuel) [] h l = parsed [] (λ plain. refl)
parse_loop-Parsed (suc fuel) (instr ∷ rest) h l =
    then_parse-Parsed fuel instr rest _
      (parse_one-Round (layout instr) (table_value instr) rest h.1) (parse_loop-Parsed fuel) h.1
      (omega arith)

Parsed-cases :
    (script : Bytes) (r : Result (List ParsedOpcode))
    → Parsed script r
    → (r ≡ err malformed_push) ⊎ ((pops : List ParsedOpcode) × (r ≡ ok pops))
Parsed-cases script r malformed = inl refl
Parsed-cases script r (parsed pops u) = inr (pops, refl)

Parsed-ok :
    (script : Bytes) (r : Result (List ParsedOpcode)) (pops : List ParsedOpcode)
    → Parsed script r
    → r ≡ ok pops
    → All IsPlain pops
    → unparse_script pops ≡ ok script
Parsed-ok script r pops malformed e plain = cc
Parsed-ok script r pops (parsed pops' u) e plain =
    let same : pops' ≡ pops = cc in rw (← same) (u (rw same plain))

-- The fuel is enough: every byte string parses, or is refused because a data push runs past its end.
pub parse_script-total :
    (script : Bytes)
    → All IsByte script
    → (parse_script script ≡ err malformed_push)
      ⊎ ((pops : List ParsedOpcode) × (parse_script script ≡ ok pops))
unfolding parse_script
parse_script-total script h =
    Parsed-cases script _ (parse_loop-Parsed (length script) script h (omega arith))

-- A script that parses, with no opcode whose table value is from 188 to 197, is written back byte
-- for byte by unparsing.
pub unparse_script-parse_script :
    (script : Bytes) (pops : List ParsedOpcode)
    → All IsByte script
    → parse_script script ≡ ok pops
    → All IsPlain pops
    → unparse_script pops ≡ ok script
unfolding parse_script
unparse_script-parse_script script pops h e plain =
    Parsed-ok script _ pops (parse_loop-Parsed (length script) script h (omega arith)) e plain
