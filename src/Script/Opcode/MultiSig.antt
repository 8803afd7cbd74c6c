-- ===== src/Script/Opcode/MultiSig.antt =====
-- opcodeCheckMultiSig and opcodeCheckMultiSigECDSA of opcode.go. The two differ in the signature
-- scheme only, which belongs to the secp256k1 library and is the record Scheme. The counters and
-- indices of the Go loop are the signatures and the public keys that are left.
pub mod Matching
use eiyaro.Common.{
  ℕ, zero, suc, ◌+◌, ◌-◌, Bool, true, false, List, [], ◌∷◌, ◌&&◌, not, ltb, ◌==◌, if◌then◌else◌,
  length, get_or, take, ℤ, pos, negsuc,
}
use eiyaro.Script.Outcome.{
  M, Result, ok, err, done, fail, ◌>>=◌, ◌>>◌, pure, throw, lift, invalid_pub_key_count,
  invalid_signature_count, too_many_operations, invalid_sig_hash_type, null_fail, foreign_error,
}
use eiyaro.Script.Num.{Bytes, int32}
use eiyaro.Script.Stack.{pop_byte_array, pop_int, push_bool}
use eiyaro.Script.Engine.{Engine, Handler, on_dstack, max_ops_per_script}
use eiyaro.Script.Opcode.Signature.{
  is_standard_sig_hash_type, check_signature_length, check_pub_key_encoding,
  check_signature_length_ecdsa, check_pub_key_encoding_ecdsa,
}

-- Whether a signature and a public key parse, whether the hash of the transaction under a hash type
-- can be computed, and whether the signature is one of that hash by the key.
pub record Scheme : Type 0 where
  pub parse_signature : Bytes → Bool
  pub parse_pub_key : Bytes → Bool
  pub has_hash : ℕ → Bool
  pub verify : ℕ → Bytes → Bytes → Bool

abbrev pub max_pub_keys_per_multi_sig : ℕ
max_pub_keys_per_multi_sig = 20

-- `parsed` and `parsedSignature`: not parsed yet, parsed in vain, or parsed.
pub data ParseState : Type 0 where
  unparsed unparsable parsed : ParseState

pub record ParsedSigInfo : Type 0 where
  pub signature : Bytes
  pub state : ParseState

-- The outcome of one round: the next signature, or the next key for the same signature.
pub data Verdict : Type 0 where
  verified : Verdict
  rejected : ParseState → Verdict

abbrev pub hash_type_of : Bytes → ℕ
hash_type_of raw_sig = get_or raw_sig (length raw_sig - 1) 0

abbrev pub signature_of : Bytes → Bytes
signature_of raw_sig = take (length raw_sig - 1) raw_sig

-- `int(numKeys.Int32())`: none for a negative number.
abbrev pub in_range : ℤ → ℕ → Bool
in_range (pos n) limit = not (ltb limit n)
in_range (negsuc n) limit = false

abbrev pub count_of : ℤ → ℕ
count_of (pos n) = n
count_of (negsuc n) = 0

-- What a round is followed by: the same signature again, the next one, or the end.
unfoldable pub go_on :
    (ParsedSigInfo → List ParsedSigInfo → Result Bool)
    → ParsedSigInfo
    → List ParsedSigInfo
    → Result Verdict
    → Result Bool
go_on loop info infos (err e) = err e
go_on loop info infos (ok (rejected s)) = loop (record info { state = s }) infos
go_on loop info [] (ok verified) = ok true
go_on loop info (other ∷ others) (ok verified) = loop other others

-- A loop of pops; the first item popped comes first.
unfoldable pub pop_many : ℕ → M Engine (List Bytes)
pop_many zero = pure []
pop_many (suc n) = do item ← on_dstack pop_byte_array; items ← pop_many n; pure (item ∷ items)

unfoldable pub count_keys : ℕ → Handler
count_keys n vm =
    if ltb max_ops_per_script (vm.num_ops + n)
    then fail too_many_operations (record vm { num_ops = vm.num_ops + n })
    else done tt (record vm { num_ops = vm.num_ops + n })

unfoldable pub fresh : List Bytes → List ParsedSigInfo
fresh [] = []
fresh (s ∷ signatures) = record { signature = s; state = unparsed } ∷ fresh signatures

unfoldable pub all_empty : List Bytes → Bool
all_empty [] = true
all_empty (s ∷ signatures) = length s == 0 && all_empty signatures

unfoldable pub push_success : List Bytes → Bool → Handler
push_success signatures success =
    if not success && not (all_empty signatures)
    then throw null_fail
    else on_dstack (push_bool success)

module _ (c : Scheme) (check_length check_encoding : Bytes → Result (Unit {0})) where
  open c use {parse_signature, parse_pub_key, has_hash, verify}

  unfoldable pub parse_once : ParsedSigInfo → Result ParseState
  parse_once info = elim info.state [
    | parsed ↦ ok parsed
    | unparsable ↦ ok unparsable
    | unparsed ↦
        if not (is_standard_sig_hash_type (hash_type_of info.signature))
        then err invalid_sig_hash_type
        else elim (check_length (signature_of info.signature)) [
          | err e ↦ err e
          | ok _ ↦
              if parse_signature (signature_of info.signature) then ok parsed else ok unparsable
        ]
  ]

  -- The round behind the parsing of the signature.
  unfoldable pub check_key : Bytes → ParseState → Bytes → Result Verdict
  check_key raw_sig unparsed pub_key = ok (rejected unparsed)
  check_key raw_sig unparsable pub_key = ok (rejected unparsable)
  check_key raw_sig parsed pub_key = elim (check_encoding pub_key) [
    | err e ↦ err e
    | ok _ ↦
        if not (parse_pub_key pub_key)
        then ok (rejected parsed)
        else if not (has_hash (hash_type_of raw_sig))
        then err foreign_error
        else if verify (hash_type_of raw_sig) (signature_of raw_sig) pub_key
        then ok verified
        else ok (rejected parsed)
  ]

  -- One round, for a signature and a key.
  unfoldable pub check_pair : ParsedSigInfo → Bytes → Result Verdict
  check_pair info pub_key =
      if length info.signature == 0
      then ok (rejected info.state)
      else elim (parse_once info) [ err e ↦ err e | ok s ↦ check_key info.signature s pub_key ]

  -- The loop `for numSignatures > 0`: it ends without success when more signatures than keys are left.
  unfoldable pub match_loop : List Bytes → ParsedSigInfo → List ParsedSigInfo → Result Bool
  match_loop [] info infos = ok false
  match_loop (pub_key ∷ pub_keys) info infos =
      let rest = go_on (match_loop pub_keys) info infos (check_pair info pub_key) in
      if ltb (suc (length pub_keys)) (suc (length infos)) then ok false else rest

  unfoldable pub match_signatures : List Bytes → List ParsedSigInfo → Result Bool
  match_signatures pub_keys [] = ok true
  match_signatures pub_keys (info ∷ infos) = match_loop pub_keys info infos

  unfoldable pub check_multi_sig : Handler
  check_multi_sig = do
    num_keys ← on_dstack pop_int
    if not (in_range (int32 num_keys) max_pub_keys_per_multi_sig)
        then throw invalid_pub_key_count
        else (do
          count_keys (count_of (int32 num_keys))
          pub_keys ← pop_many (count_of (int32 num_keys))
          num_sigs ← on_dstack pop_int
          if not (in_range (int32 num_sigs) (count_of (int32 num_keys)))
              then throw invalid_signature_count
              else (do
                signatures ← pop_many (count_of (int32 num_sigs))
                success ← lift (match_signatures pub_keys (fresh signatures))
                push_success signatures success))

unfoldable pub opcode_check_multi_sig : Scheme → Handler
opcode_check_multi_sig c = check_multi_sig c check_signature_length check_pub_key_encoding

unfoldable pub opcode_check_multi_sig_ecdsa : Scheme → Handler
opcode_check_multi_sig_ecdsa c =
    check_multi_sig c check_signature_length_ecdsa check_pub_key_encoding_ecdsa
