-- ===== src/Script/Opcode/MultiSig/Matching.antt =====
-- What the loop of the multi-signature checks decides: whether the signatures match the public keys
-- in order. The loop is greedy, the specification chooses.
use mathlib.Core.Path.{subst}
use eiyaro.Common.{
  suc, ◌≤◌, ◌≡◌, inl, inr, ◌↔◌, refl, ap, Bool, true, false, List, [], ◌∷◌, ◌&&◌, not, ltb, ◌==◌,
  if◌then◌else◌, length, arith, Bool-cases,
}
use eiyaro.Script.Outcome.{ErrorCode, Result, ok, err, foreign_error}
use eiyaro.Script.Num.{Bytes}
use eiyaro.Script.Opcode.Signature.{is_standard_sig_hash_type}
use eiyaro.Script.Opcode.MultiSig.{
  Scheme, ParseState, unparsed, unparsable, parsed, ParsedSigInfo, Verdict, verified, rejected,
  hash_type_of, signature_of, parse_once, check_key, check_pair, go_on, match_loop,
  match_signatures, fresh,
}

-- A signature with its hash type that is not empty, parses, and is one by a key that parses.
unfoldable pub accepts : Scheme → Bytes → Bytes → Bool
accepts c raw_sig key =
    not (length raw_sig == 0)
    && c.parse_signature (signature_of raw_sig)
    && (c.parse_pub_key key && c.verify (hash_type_of raw_sig) (signature_of raw_sig) key)

-- The signatures are accepted with public keys in their order, of which some may be left out.
pub data Matches (c : Scheme) : List Bytes → List Bytes → Type 0 where
  all_matched : (keys : List Bytes) → Matches c [] keys
  match_first :
      (s key : Bytes) (signatures keys : List Bytes)
      → accepts c s key ≡ true
      → Matches c signatures keys
      → Matches c (s ∷ signatures) (key ∷ keys)
  skip_key :
      (key : Bytes) (signatures keys : List Bytes)
      → Matches c signatures keys
      → Matches c signatures (key ∷ keys)

Matches-tail :
    (c : Scheme) (s : Bytes) (signatures keys : List Bytes)
    → Matches c (s ∷ signatures) keys
    → Matches c signatures keys
Matches-tail c s signatures keys (match_first _ key _ rest a m) = skip_key key signatures rest m
Matches-tail c s signatures keys (skip_key key _ rest m) =
    skip_key key signatures rest (Matches-tail c s signatures rest m)

Matches-length :
    (c : Scheme) (signatures keys : List Bytes)
    → Matches c signatures keys
    → length signatures ≤ length keys
Matches-length c signatures keys (all_matched _) = omega arith
Matches-length c signatures keys (match_first _ key ss rest a m) =
    omega (arith, Matches-length c ss rest m)
Matches-length c signatures keys (skip_key key _ rest m) =
    omega (arith, Matches-length c signatures rest m)

-- To match the first signature with the first key that accepts it loses nothing.
Matches-greedy :
    (c : Scheme) (s key : Bytes) (signatures keys : List Bytes)
    → Matches c (s ∷ signatures) (key ∷ keys)
    → Matches c signatures keys
Matches-greedy c s key signatures keys (match_first _ _ _ _ a m) = m
Matches-greedy c s key signatures keys (skip_key _ _ _ m) = Matches-tail c s signatures keys m

Matches-skip :
    (c : Scheme) (s key : Bytes) (signatures keys : List Bytes)
    → accepts c s key ≡ false
    → Matches c (s ∷ signatures) (key ∷ keys)
    → Matches c (s ∷ signatures) keys
Matches-skip c s key signatures keys n (match_first _ _ _ _ a m) = absurd (ground (arith, n, a))
Matches-skip c s key signatures keys n (skip_key _ _ _ m) = m

signatures_of : List ParsedSigInfo → List Bytes
signatures_of [] = []
signatures_of (info ∷ infos) = info.signature ∷ signatures_of infos

-- The state says of the signature whether it parses.
abbrev IsState : Scheme → Bytes → ParseState → Type 0
IsState c raw_sig unparsed = Unit
IsState c raw_sig unparsable = c.parse_signature (signature_of raw_sig) ≡ false
IsState c raw_sig parsed = c.parse_signature (signature_of raw_sig) ≡ true

abbrev AreStates : Scheme → List ParsedSigInfo → Type 0
AreStates c [] = Unit
AreStates c (info ∷ infos) = IsState c info.signature info.state × AreStates c infos

-- What a round with the pair decides.
data Decided (c : Scheme) (raw_sig key : Bytes) : Result Verdict → Type 0 where
  failed : (e : ErrorCode) → Decided c raw_sig key (err e)
  accepted : accepts c raw_sig key ≡ true → Decided c raw_sig key (ok verified)
  refused :
      (s : ParseState)
      → accepts c raw_sig key ≡ false
      → IsState c raw_sig s
      → Decided c raw_sig key (ok (rejected s))

-- What the parsing of a signature leaves.
data Settled (c : Scheme) (raw_sig : Bytes) : Result ParseState → Type 0 where
  no_parse : (e : ErrorCode) → Settled c raw_sig (err e)
  is_parsed : c.parse_signature (signature_of raw_sig) ≡ true → Settled c raw_sig (ok parsed)
  is_unparsable :
      c.parse_signature (signature_of raw_sig) ≡ false → Settled c raw_sig (ok unparsable)

module _ (c : Scheme) (check_length check_encoding : Bytes → Result (Unit {0})) where
  Settled-by_length :
      (raw_sig : Bytes) (r : Result (Unit {0}))
      → Settled c raw_sig (elim r [
        | err e ↦ err e
        | ok _ ↦ if c.parse_signature (signature_of raw_sig) then ok parsed else ok unparsable
      ])
  Settled-by_length raw_sig (err e) = no_parse e
  Settled-by_length raw_sig (ok _) = elim (Bool-cases (c.parse_signature (signature_of raw_sig))) [
    | inl h ↦ rw h (is_parsed h)
    | inr h ↦ rw h (is_unparsable h)
  ]

  parse_once-Settled :
      (raw_sig : Bytes) (s : ParseState)
      → IsState c raw_sig s
      → Settled c raw_sig
          (parse_once c check_length check_encoding (record { signature = raw_sig; state = s }))
  unfolding parse_once
  parse_once-Settled raw_sig parsed h = is_parsed h
  parse_once-Settled raw_sig unparsable h = is_unparsable h
  parse_once-Settled raw_sig unparsed h =
      elim (Bool-cases (is_standard_sig_hash_type (hash_type_of raw_sig))) [
        | inl standard ↦
            rw standard (Settled-by_length raw_sig (check_length (signature_of raw_sig)))
        | inr other ↦ rw other (no_parse _)
      ]

  module _ (raw_sig key : Bytes) (some_bytes : (length raw_sig == 0) ≡ false) where
    verified_by_key :
        (p : Bool) (q : Bool) (v : Bool)
        → c.parse_signature (signature_of raw_sig) ≡ true
        → c.parse_pub_key key ≡ p
        → c.verify (hash_type_of raw_sig) (signature_of raw_sig) key ≡ v
        → Decided c raw_sig key (
            if not p
            then ok (rejected parsed)
            else if not q
            then err foreign_error
            else if v
            then ok verified
            else ok (rejected parsed))
    unfolding accepts
    verified_by_key false q v h e f = refused parsed (rw (some_bytes, h, e) refl) h
    verified_by_key true false v h e f = failed _
    verified_by_key true true true h e f = accepted (rw (some_bytes, h, e, f) refl)
    verified_by_key true true false h e f = refused parsed (rw (some_bytes, h, e, f) refl) h

    check_key-Decided :
        (r : Result ParseState)
        → Settled c raw_sig r
        → Decided c raw_sig key (elim r [
          | err e ↦ err e
          | ok s ↦ check_key c check_length check_encoding raw_sig s key
        ])
    unfolding check_key accepts
    check_key-Decided r (no_parse e) = failed e
    check_key-Decided r (is_unparsable h) = refused unparsable (rw (some_bytes, h) refl) h
    check_key-Decided r (is_parsed h) = by_encoding (check_encoding key)
      where
        by_encoding :
            (r : Result (Unit {0}))
            → Decided c raw_sig key (elim r [
              | err e ↦ err e
              | ok _ ↦
                  if not (c.parse_pub_key key)
                  then ok (rejected parsed)
                  else if not (c.has_hash (hash_type_of raw_sig))
                  then err foreign_error
                  else if c.verify (hash_type_of raw_sig) (signature_of raw_sig) key
                  then ok verified
                  else ok (rejected parsed)
            ])
        by_encoding (err e) = failed e
        by_encoding (ok _) = verified_by_key _ _ _ h refl refl

  check_pair-Decided :
      (raw_sig key : Bytes) (s : ParseState)
      → IsState c raw_sig s
      → Decided c raw_sig key
          (check_pair c check_length check_encoding (record { signature = raw_sig; state = s }) key)
  unfolding check_pair accepts
  check_pair-Decided raw_sig key s h = elim (Bool-cases (length raw_sig == 0)) [
    | inl empty ↦ rw empty (refused s (rw empty refl) h)
    | inr some_bytes ↦
        rw some_bytes (check_key-Decided raw_sig key some_bytes _ (parse_once-Settled raw_sig s h))
  ]

  -- The result of the loop is the matching of the signatures that are left.
  module _ (keys : List Bytes) where
    abbrev Matched : Result Bool → List Bytes → Type 0
    Matched (err e) signatures = Unit
    Matched (ok true) signatures = Matches c signatures keys
    Matched (ok false) signatures = ¬ Matches c signatures keys

  module _ (key : Bytes) (keys : List Bytes) where
    Matched-skip :
        (s : Bytes) (signatures : List Bytes) (r : Result Bool)
        → accepts c s key ≡ false
        → Matched keys r (s ∷ signatures)
        → Matched (key ∷ keys) r (s ∷ signatures)
    Matched-skip s signatures (err e) n m = tt
    Matched-skip s signatures (ok true) n m = skip_key key _ keys m
    Matched-skip s signatures (ok false) n m = λ t. m (Matches-skip c s key signatures keys n t)

    Matched-first :
        (s : Bytes) (signatures : List Bytes) (r : Result Bool)
        → accepts c s key ≡ true
        → Matched keys r signatures
        → Matched (key ∷ keys) r (s ∷ signatures)
    Matched-first s signatures (err e) a m = tt
    Matched-first s signatures (ok true) a m = match_first s key signatures keys a m
    Matched-first s signatures (ok false) a m = λ t. m (Matches-greedy c s key signatures keys t)

  signatures_of-length : (infos : List ParsedSigInfo) → length (signatures_of infos) ≡ length infos
  unfolding signatures_of
  signatures_of-length [] = refl
  signatures_of-length (info ∷ infos) = omega (arith, signatures_of-length infos)

  -- A loop that is right with the keys that are left makes a round right.
  go_on-Matched :
      (keys : List Bytes) (key raw_sig : Bytes) (s : ParseState) (infos : List ParsedSigInfo)
      (loop : ParsedSigInfo → List ParsedSigInfo → Result Bool) (r : Result Verdict)
      → ((sig : Bytes) (t : ParseState) (others : List ParsedSigInfo)
          → IsState c sig t
          → AreStates c others
          → Matched keys
              (loop (record { signature = sig; state = t }) others)
              (sig ∷ signatures_of others))
      → AreStates c infos
      → Decided c raw_sig key r
      → Matched
          (key ∷ keys)
          (go_on loop (record { signature = raw_sig; state = s }) infos r)
          (raw_sig ∷ signatures_of infos)
  unfolding go_on signatures_of
  go_on-Matched keys key raw_sig s infos loop r ih hs (failed e) = tt
  go_on-Matched keys key raw_sig s infos loop r ih hs (refused t n h) =
      Matched-skip key keys raw_sig _ _ n (ih raw_sig t infos h hs)
  go_on-Matched keys key raw_sig s [] loop r ih hs (accepted a) =
      Matched-first key keys raw_sig [] (ok true) a (all_matched keys)
  go_on-Matched keys key raw_sig s (other ∷ others) loop r ih hs (accepted a) =
      Matched-first key keys raw_sig _ _ a (ih other.signature other.state others hs.0 hs.1)

  match_loop-Matched :
      (keys : List Bytes) (raw_sig : Bytes) (s : ParseState) (infos : List ParsedSigInfo)
      → IsState c raw_sig s
      → AreStates c infos
      → Matched keys
          (match_loop c check_length check_encoding keys
            (record { signature = raw_sig; state = s })
            infos)
          (raw_sig ∷ signatures_of infos)
  unfolding match_loop
  match_loop-Matched [] raw_sig s infos h hs = λ t. ground (arith, Matches-length c _ [] t)
  match_loop-Matched (key ∷ keys) raw_sig s infos h hs =
      elim (Bool-cases (ltb (suc (length keys)) (suc (length infos)))) [
        | inl few ↦ rw few (λ t.
            ground (arith, few, Matches-length c _ (key ∷ keys) t, signatures_of-length infos))
        | inr many ↦ rw many (
            go_on-Matched keys key raw_sig s infos _ _ (match_loop-Matched keys) hs
              (check_pair-Decided raw_sig key s h))
      ]

  fresh-states :
      (signatures : List Bytes)
      → AreStates c (fresh signatures) × (signatures_of (fresh signatures) ≡ signatures)
  unfolding fresh signatures_of
  fresh-states [] = (tt, refl)
  fresh-states (s ∷ signatures) = let (h, e) = fresh-states signatures in ((tt, h), ap (◌∷◌ s) e)

  match_signatures-Matched :
      (keys signatures : List Bytes)
      → Matched keys
          (match_signatures c check_length check_encoding keys (fresh signatures))
          signatures
  unfolding match_signatures fresh
  match_signatures-Matched keys [] = all_matched keys
  match_signatures-Matched keys (s ∷ signatures) =
      let (h, e) = fresh-states signatures in
      subst
        (λ t.
          Matched keys
            (match_loop c check_length check_encoding keys
              (record { signature = s; state = unparsed }) (fresh signatures))
            (s ∷ t))
        e (match_loop-Matched keys s unparsed (fresh signatures) tt h)

  Matched-iff :
      (keys signatures : List Bytes) (r : Result Bool) (b : Bool)
      → Matched keys r signatures
      → r ≡ ok b
      → (b ≡ true) ↔ Matches c signatures keys
  Matched-iff keys signatures (err e) b m h = absurd (ground (arith, h))
  Matched-iff keys signatures (ok true) b m h = ((λ _. m), (λ _. ground (arith, h)))
  Matched-iff keys signatures (ok false) b m h =
      ((λ e. absurd (ground (arith, h, e))), (λ t. absurd (m t)))

  -- If the loop of a multi-signature check ends without an error, its result is true exactly if the
  -- signatures match the public keys in order, some keys left out.
  pub match_signatures-Matches :
      (keys signatures : List Bytes) (b : Bool)
      → match_signatures c check_length check_encoding keys (fresh signatures) ≡ ok b
      → (b ≡ true) ↔ Matches c signatures keys
  match_signatures-Matches keys signatures b h =
      Matched-iff keys signatures _ b (match_signatures-Matched keys signatures) h
