-- ===== src/Script/Opcode/Frame/MultiSig.antt =====
-- The multi-signature checks leave the program alone, by the rules of Frame.antt.
use eiyaro.Common.{ℕ, zero, suc, List, ◌∷◌, Bool, arith}
use eiyaro.Script.Outcome.{Result}
use eiyaro.Script.Stack.{pop_byte_array}
use eiyaro.Script.Num.{Bytes}
use eiyaro.Script.Engine.{on_dstack}
use eiyaro.Script.Opcode.MultiSig.{
  Scheme, pop_many, count_keys, push_success, check_multi_sig, opcode_check_multi_sig,
  opcode_check_multi_sig_ecdsa,
}
use eiyaro.Script.Opcode.Frame.{Frames, Frames->>=, Frames-on_dstack, Frames-pure, frames}

Frames-pop_many : (n : ℕ) → Frames (pop_many n)
unfolding pop_many
Frames-pop_many zero = search frames
Frames-pop_many (suc n) =
    Frames->>= (on_dstack pop_byte_array) _ (Frames-on_dstack _)
      (λ item. Frames->>= (pop_many n) _ (Frames-pop_many n) (λ items. Frames-pure (item ∷ items)))

Frames-count_keys : (n : ℕ) → Frames (count_keys n)
unfolding count_keys
Frames-count_keys n = record {
  frame = λ vm w a h. record {
    same_scripts = ground arith;
    same_script = ground arith;
    same_offset = ground arith;
    same_kind = ground arith;
    same_saved = ground arith;
  };
}

Frames-push_success :
    (signatures : List Bytes) (success : Bool) → Frames (push_success signatures success)
unfolding push_success
Frames-push_success signatures success = search frames

Frames-check_multi_sig :
    (c : Scheme) (check_length check_encoding : Bytes → Result (Unit {0}))
    → Frames (check_multi_sig c check_length check_encoding)
unfolding check_multi_sig
Frames-check_multi_sig c check_length check_encoding =
    search (frames, Frames-pop_many, Frames-count_keys, Frames-push_success) depth 20 fits 4000

pub Frames-opcode_check_multi_sig : (c : Scheme) → Frames (opcode_check_multi_sig c)
unfolding opcode_check_multi_sig
Frames-opcode_check_multi_sig c = Frames-check_multi_sig c _ _

pub Frames-opcode_check_multi_sig_ecdsa : (c : Scheme) → Frames (opcode_check_multi_sig_ecdsa c)
unfolding opcode_check_multi_sig_ecdsa
Frames-opcode_check_multi_sig_ecdsa c = Frames-check_multi_sig c _ _
