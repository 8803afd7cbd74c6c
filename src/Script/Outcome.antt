-- ===== src/Script/Outcome.antt =====
-- Error codes of domain/consensus/utils/txscript/error.go, and what a method of a mutable object
-- does: it returns a value or an error beside the new object, or panics.
use eiyaro.Common.{◌≡◌, refl}

pub data ErrorCode : Type 0 where
  internal invalid_flags invalid_index unsupported_address not_multisig_script : ErrorCode
  too_many_required_sigs early_return empty_stack eval_false script_unfinished : ErrorCode
  invalid_program_counter script_too_big element_too_big too_many_operations : ErrorCode
  stack_overflow invalid_pub_key_count invalid_signature_count number_too_big : ErrorCode
  verify_failed equal_verify num_equal_verify check_sig_verify check_multi_sig_verify : ErrorCode
  disabled_opcode reserved_opcode malformed_push invalid_stack_operation : ErrorCode
  unbalanced_conditional minimal_data invalid_sig_hash_type sig_length sig_high_s : ErrorCode
  not_push_only pub_key_format clean_stack null_fail negative_lock_time : ErrorCode
  unsatisfied_lock_time minimal_if : ErrorCode
  -- An error that is not one of the script engine.
  foreign_error : ErrorCode

pub data Result (A : Type 0) : Type 0 where
  ok : A → Result A
  err : ErrorCode → Result A

pub data Outcome (S A : Type 0) : Type 0 where
  done : A → S → Outcome S A
  fail : ErrorCode → S → Outcome S A
  panic : Outcome S A

abbrev pub M : Type 0 → Type 0 → Type 0
M S A = S → Outcome S A

infixl 5 ◌>>=◌ ◌>>◌
abbrev pub ◌>>=◌ : {S A B : Type 0} → M S A → (A → M S B) → M S B
◌>>=◌ m f s = elim (m s) [ done a t ↦ f a t | fail e t ↦ fail e t | panic ↦ panic ]

abbrev pub ◌>>◌ : {S B : Type 0} → M S (Unit {0}) → M S B → M S B
m >> k = m >>= λ _. k

abbrev pub pure : {S A : Type 0} → A → M S A
pure a s = done a s

abbrev pub throw : {S A : Type 0} → ErrorCode → M S A
throw e s = fail e s

-- A call whose result does not touch the object.
abbrev pub lift : {S A : Type 0} → Result A → M S A
lift (ok a) s = done a s
lift (err e) s = fail e s

done_of_elim :
    {S A B : Type 0} (o : Outcome S A) (f : A → M S B) {b : B} {t : S}
    → (elim o [ done a u ↦ f a u | fail e u ↦ fail e u | panic ↦ panic ]) ≡ done b t
    → (a : A) × (u : S) × (o ≡ done a u) × (f a u ≡ done b t)
done_of_elim (done a u) f h = (a, u, refl, h)
done_of_elim (fail e u) f h = cc
done_of_elim panic f h = cc

-- A successful chain succeeded in its parts.
pub >>=-eq-done :
    {S A B : Type 0} (m : M S A) (f : A → M S B) (s : S) {b : B} {t : S}
    → (m >>= f) s ≡ done b t
    → (a : A) × (u : S) × (m s ≡ done a u) × (f a u ≡ done b t)
>>=-eq-done m f s h = done_of_elim (m s) f h
