-- ===== src/Script/Opcode/Signature.antt =====
-- Hashes and single signatures: opcodeSha256 to opcodeCheckSigVerify of opcode.go, over the hashes
-- and the verification of `Crypto`. The signature hash type is the last byte of the signature.
use eiyaro.Common.{
  ℕ, ◌-◌, Bool, false, ◌&&◌, ◌||◌, not, ◌==◌, ltb, if◌then◌else◌, length, get_or, take, Option,
  none, some,
}
use eiyaro.Script.Outcome.{
  Result, ok, err, ◌>>=◌, ◌>>◌, throw, lift, invalid_sig_hash_type, sig_length, pub_key_format,
  null_fail, check_sig_verify,
}
use eiyaro.Script.Num.{Bytes}
use eiyaro.Script.Stack.{push_byte_array, push_bool, pop_byte_array}
use eiyaro.Script.Engine.{Handler, Crypto, on_dstack}
use eiyaro.Script.Opcode.Control.{abstract_verify}

-- consensushashing/calculate_signature_hash.go
unfoldable pub is_standard_sig_hash_type : ℕ → Bool
is_standard_sig_hash_type t =
    t == 0x01 || t == 0x02 || t == 0x04 || t == 0x81 || t == 0x82 || t == 0x84

unfoldable pub check_signature_length : Bytes → Result (Unit {0})
check_signature_length sig = if length sig == 64 then ok tt else err sig_length

unfoldable pub check_signature_length_ecdsa : Bytes → Result (Unit {0})
check_signature_length_ecdsa sig = if length sig == 64 then ok tt else err sig_length

unfoldable pub check_pub_key_encoding : Bytes → Result (Unit {0})
check_pub_key_encoding pub_key = if length pub_key == 32 then ok tt else err pub_key_format

unfoldable pub check_pub_key_encoding_ecdsa : Bytes → Result (Unit {0})
check_pub_key_encoding_ecdsa pub_key = if length pub_key == 33 then ok tt else err pub_key_format

module _ (c : Crypto) where
  open c use {sha256, blake2b, schnorr_verify, ecdsa_verify}

  unfoldable pub opcode_sha256 : Handler
  opcode_sha256 = do buf ← on_dstack pop_byte_array; on_dstack (push_byte_array (sha256 buf))

  unfoldable pub opcode_blake2b : Handler
  opcode_blake2b = do buf ← on_dstack pop_byte_array; on_dstack (push_byte_array (blake2b buf))

  -- The end of both functions: `none` is a hash, key or signature that does not parse.
  unfoldable pub push_verdict : Option Bool → Bytes → Handler
  push_verdict none sig_bytes = on_dstack (push_bool false)
  push_verdict (some valid) sig_bytes =
      if not valid && ltb 0 (length sig_bytes) then throw null_fail else on_dstack (push_bool valid)

  unfoldable pub opcode_check_sig : Handler
  opcode_check_sig = do
    pk_bytes ← on_dstack pop_byte_array
    full_sig_bytes ← on_dstack pop_byte_array
    let hash_type = get_or full_sig_bytes (length full_sig_bytes - 1) 0
    let sig_bytes = take (length full_sig_bytes - 1) full_sig_bytes
    if ltb (length full_sig_bytes) 1
        then on_dstack (push_bool false)
        else if not (is_standard_sig_hash_type hash_type)
        then throw invalid_sig_hash_type
        else (do
          lift (check_signature_length sig_bytes)
          lift (check_pub_key_encoding pk_bytes)
          push_verdict (schnorr_verify hash_type sig_bytes pk_bytes) sig_bytes)

  unfoldable pub opcode_check_sig_ecdsa : Handler
  opcode_check_sig_ecdsa = do
    pk_bytes ← on_dstack pop_byte_array
    full_sig_bytes ← on_dstack pop_byte_array
    let hash_type = get_or full_sig_bytes (length full_sig_bytes - 1) 0
    let sig_bytes = take (length full_sig_bytes - 1) full_sig_bytes
    if ltb (length full_sig_bytes) 1
        then on_dstack (push_bool false)
        else if not (is_standard_sig_hash_type hash_type)
        then throw invalid_sig_hash_type
        else (do
          lift (check_signature_length_ecdsa sig_bytes)
          lift (check_pub_key_encoding_ecdsa pk_bytes)
          push_verdict (ecdsa_verify hash_type sig_bytes pk_bytes) sig_bytes)

  unfoldable pub opcode_check_sig_verify : Handler
  opcode_check_sig_verify = opcode_check_sig >> abstract_verify check_sig_verify
