-- ===== src/Script/Parse/Round.antt =====
-- One round of parsing: it fails, or takes the bytes that unparsing writes for its opcode.
use mathlib.Core.List.{append_assoc}
use mathlib.Core.Path.{subst}
use eiyaro.Common.{
  ℕ, ◌+◌, ◌*◌, ◌%◌, ◌/◌, ◌≤◌, ◌≡◌, inl, inr, refl, sym, ap, ◌∙◌, true, [], ◌∷◌, ◌++◌, false, ◌==◌,
  drop-append, take-append, ltb, arith, length, take, drop, All, Bool-cases, take-append-drop,
  length-take, length-append, All-take,
}
use eiyaro.Script.Outcome.{Result, ok, err, malformed_push}
use eiyaro.Script.Num.{Bytes, IsByte, decode}
use eiyaro.Script.Engine.{ParsedOpcode}
use eiyaro.Script.Parse.{Layout, single, fixed, counted, parse_one, length_field, pop_bytes}

length_field-decode : (v : Bytes) → All IsByte v → length_field (length v) (decode v) ≡ v
unfolding length_field decode
length_field-decode [] h = refl
length_field-decode (b ∷ v) h =
    let e₁ : (b + 256 * decode v) % 256 ≡ b = omega arith in
    let e₂ : (b + 256 * decode v) / 256 ≡ decode v = omega arith in
    rw (e₁, e₂, length_field-decode v h.1) refl

-- What one round does: it fails as malformed, or it splits the bytes into those of the opcode,
-- which unparsing writes, and a rest. Before any other rest the same bytes give the same opcode.
pub record Consumed (l : Layout) (v : ℕ) (rest : Bytes) (pop : ParsedOpcode) (rest' : Bytes)
    : Type 0 where
  pub used : Bytes
  pub split : rest ≡ used ++ rest'
  pub same_value : pop.value ≡ v
  pub printed : pop_bytes l pop ≡ ok (v ∷ used)
  pub again : (tail : Bytes) → parse_one l v (used ++ tail) ≡ ok (pop, tail)

==_refl : (n : ℕ) → (n == n) ≡ true
==_refl n = ground arith

Consumed-single :
    (v : ℕ) (rest : Bytes) → Consumed single v rest (record { value = v; data_bytes = [] }) rest
unfolding pop_bytes parse_one
Consumed-single v rest = record {
  used = [];
  split = refl;
  same_value = refl;
  printed = refl;
  again = λ tail. refl;
}

fixed_again :
    (v : ℕ) (used tail : Bytes)
    → parse_one (fixed (length used)) v (used ++ tail)
      ≡ ok (record { value = v; data_bytes = used }, tail)
unfolding parse_one
fixed_again v used tail =
    let long : ltb (length (used ++ tail)) (length used) ≡ false =
      ground (arith, length-append used tail) in
    rw (long, take-append used tail, drop-append used tail) refl

Consumed-fixed :
    (n v : ℕ) (rest : Bytes)
    → n ≤ length rest
    → Consumed (fixed n) v rest (record { value = v; data_bytes = take n rest }) (drop n rest)
unfolding pop_bytes
Consumed-fixed n v rest h = record {
  used = take n rest;
  split = sym (take-append-drop n rest);
  same_value = refl;
  printed = rw (length-take n rest h, ==_refl n) refl;
  again = λ tail.
      subst
        (λ k.
          parse_one (fixed k) v (take n rest ++ tail)
          ≡ ok (record { value = v; data_bytes = take n rest }, tail))
        (length-take n rest h) (fixed_again v (take n rest) tail);
}

length_field-take :
    (w : ℕ) (rest : Bytes)
    → All IsByte rest
    → w ≤ length rest
    → length_field w (decode (take w rest)) ≡ take w rest
length_field-take w rest h p =
    ap (λ k. length_field k (decode (take w rest))) (sym (length-take w rest p))
    ∙ length_field-decode (take w rest) (All-take IsByte w rest h)

counted_again :
    (v : ℕ) (field used tail : Bytes)
    → length used ≡ decode field
    → parse_one (counted (length field)) v ((field ++ used) ++ tail)
      ≡ ok (record { value = v; data_bytes = used }, tail)
unfolding parse_one
counted_again v field used tail e =
    let whole : length (field ++ (used ++ tail)) ≡ length field + length (used ++ tail) =
      length-append field (used ++ tail) in
    let has_field : ltb (length (field ++ (used ++ tail))) (length field) ≡ false =
      ground (arith, whole) in
    let has_data : ltb (length (used ++ tail)) (length used) ≡ false =
      ground (arith, length-append used tail) in
    rw
      (
        append_assoc field used tail,
        take-append field (used ++ tail),
        drop-append field (used ++ tail),
        has_field,
        ← e,
        has_data,
        take-append used tail,
        drop-append used tail,
      )
      refl

Consumed-counted :
    (w v : ℕ) (rest : Bytes)
    → All IsByte rest
    → w ≤ length rest
    → decode (take w rest) ≤ length (drop w rest)
    → Consumed
        (counted w)
        v
        rest
        (record { value = v; data_bytes = take (decode (take w rest)) (drop w rest) })
        (drop (decode (take w rest)) (drop w rest))
unfolding pop_bytes
Consumed-counted w v rest h p q =
    let n = decode (take w rest) in
    record {
      used = take w rest ++ take n (drop w rest);
      split = sym (
          append_assoc (take w rest) (take n (drop w rest)) (drop n (drop w rest))
          ∙ ap (λ t. take w rest ++ t) (take-append-drop n (drop w rest))
          ∙ take-append-drop w rest);
      same_value = refl;
      printed = rw (length-take n (drop w rest) q, length_field-take w rest h p, ==_refl n) refl;
      again = λ tail.
          subst
            (λ k.
              parse_one (counted k) v ((take w rest ++ take n (drop w rest)) ++ tail)
              ≡ ok (record { value = v; data_bytes = take n (drop w rest) }, tail))
            (length-take w rest p)
            (counted_again v (take w rest) (take n (drop w rest)) tail
              (length-take n (drop w rest) q));
    }

-- The two results of a round.
pub data Round (l : Layout) (v : ℕ) (rest : Bytes) : Result (ParsedOpcode × Bytes) → Type 0 where
  cut_short : Round l v rest (err malformed_push)
  consumed :
      (pop : ParsedOpcode) (rest' : Bytes)
      → Consumed l v rest pop rest'
      → Round l v rest (ok (pop, rest'))

pub parse_one-Round :
    (l : Layout) (v : ℕ) (rest : Bytes) → All IsByte rest → Round l v rest (parse_one l v rest)
unfolding parse_one
parse_one-Round single v rest h = consumed _ _ (Consumed-single v rest)
parse_one-Round (fixed n) v rest h = elim (Bool-cases (ltb (length rest) n)) [
  | inl short ↦ rw short cut_short
  | inr long ↦ rw long (consumed _ _ (Consumed-fixed n v rest (ground arith)))
]
parse_one-Round (counted w) v rest h = elim (Bool-cases (ltb (length rest) w)) [
  | inl short ↦ rw short cut_short
  | inr long ↦ rw long (elim (Bool-cases (ltb (length (drop w rest)) (decode (take w rest)))) [
    | inl short ↦ rw short cut_short
    | inr enough ↦
        rw enough (consumed _ _ (Consumed-counted w v rest h (ground arith) (ground arith)))
  ])
]
