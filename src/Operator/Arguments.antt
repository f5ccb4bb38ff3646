-- ===== src/Operator/Arguments.antt =====
-- What the container is told of the spec.
use inferbolt.Base.{
  String, false, ◌≡◌, refl, ap, Option, none, some, List, [], ◌∷◌, ◌==◌, arith, Bool-cases, ◌∙◌, ℕ,
  ◌≤◌, ◌*◌, concat, ==_self, if◌then◌else◌, ◌++◌, inl, inr,
}
use inferbolt.Base.Int.{ℤ, pos, ltb_ℤ, ◌*ℤ◌}
use inferbolt.Operator.Types.{OptimizedInferenceSpec}
use inferbolt.Operator.Deployment.{
  int_text, build_container_args, text_flag, number_flag, wrap32, resource_list, container_of,
}

-- A reader of the arguments: the value behind a flag, flags and values taking turns.
pub flag_value : List String → String → Option String
flag_value [] flag = none
flag_value (f ∷ []) flag = none
flag_value (f ∷ value ∷ args) flag = if f == flag then some value else flag_value args flag

abbrev pub number_setting : ℤ → Option String
number_setting n = if ltb_ℤ (pos 0) n then some (int_text n) else none

-- A flag that is not asked for is passed over, set or not.
text_flag-apart :
    (flag value asked : String) (rest : List String)
    → (flag == asked) ≡ false
    → flag_value (text_flag flag value ++ rest) asked ≡ flag_value rest asked
unfolding flag_value
text_flag-apart flag value asked rest h = elim (Bool-cases (value == "")) [
  | inl v ↦ rw v refl
  | inr v ↦ rw v (rw h refl)
]

number_flag-apart :
    (flag : String) (n : ℤ) (asked : String) (rest : List String)
    → (flag == asked) ≡ false
    → flag_value (number_flag flag n ++ rest) asked ≡ flag_value rest asked
unfolding flag_value
number_flag-apart flag n asked rest h = elim (Bool-cases (ltb_ℤ (pos 0) n)) [
  | inl v ↦ rw v (rw h refl)
  | inr v ↦ rw v refl
]

text_flag-asked :
    (flag value : String) (rest : List String)
    → flag_value rest flag ≡ none
    → flag_value (text_flag flag value ++ rest) flag ≡ (if value == "" then none else some value)
unfolding flag_value
text_flag-asked flag value rest h = elim (Bool-cases (value == "")) [
  | inl v ↦ rw v h
  | inr v ↦ rw v (rw ==_self refl)
]

number_flag-asked :
    (flag : String) (n : ℤ) (rest : List String)
    → flag_value rest flag ≡ none
    → flag_value (number_flag flag n ++ rest) flag ≡ number_setting n
unfolding flag_value
number_flag-asked flag n rest h = elim (Bool-cases (ltb_ℤ (pos 0) n)) [
  | inl v ↦ rw v (rw ==_self refl)
  | inr v ↦ rw v h
]

number_flag-last :
    (flag : String) (n : ℤ) (asked : String)
    → flag_value (number_flag flag n) asked ≡ (if flag == asked then number_setting n else none)
unfolding flag_value
number_flag-last flag n asked = elim (Bool-cases (ltb_ℤ (pos 0) n)) [
  | inl v ↦ rw v refl
  | inr v ↦ rw v (ground arith)
]

-- The arguments behind each setting.
abbrev last_args : OptimizedInferenceSpec → List String
last_args spec = number_flag "--max-model-len" spec.max_model_len

abbrev batch_args : OptimizedInferenceSpec → List String
batch_args spec = number_flag "--max-num-seqs" spec.max_batch_size ++ last_args spec

abbrev parallel_args : OptimizedInferenceSpec → List String
parallel_args spec = number_flag "--tensor-parallel-size" spec.tensor_parallel ++ batch_args spec

-- What is read back from the arguments: the model, and each of the four optional settings exactly
-- when it is set, a text when it is not empty and a number when it is positive.
pub build_container_args-flag_value :
    (spec : OptimizedInferenceSpec)
    → (flag_value (build_container_args spec) "--model" ≡ some spec.model)
      × (flag_value (build_container_args spec) "--quantization"
          ≡ (if spec.quantization == "" then none else some spec.quantization))
      × (flag_value (build_container_args spec) "--tensor-parallel-size"
          ≡ number_setting spec.tensor_parallel)
      × (flag_value (build_container_args spec) "--max-num-seqs"
          ≡ number_setting spec.max_batch_size)
      × (flag_value (build_container_args spec) "--max-model-len"
          ≡ number_setting spec.max_model_len)
unfolding flag_value build_container_args
build_container_args-flag_value spec = (
  refl,
  text_flag-asked "--quantization" spec.quantization (parallel_args spec) (
      number_flag-apart "--tensor-parallel-size" spec.tensor_parallel "--quantization"
        (batch_args spec) refl
      ∙ number_flag-apart "--max-num-seqs" spec.max_batch_size "--quantization" (last_args spec)
          refl
      ∙ number_flag-last "--max-model-len" spec.max_model_len "--quantization"),
  text_flag-apart "--quantization" spec.quantization "--tensor-parallel-size" (parallel_args spec)
        refl
      ∙ number_flag-asked "--tensor-parallel-size" spec.tensor_parallel (batch_args spec) (
          number_flag-apart "--max-num-seqs" spec.max_batch_size "--tensor-parallel-size"
            (last_args spec) refl
          ∙ number_flag-last "--max-model-len" spec.max_model_len "--tensor-parallel-size"),
  text_flag-apart "--quantization" spec.quantization "--max-num-seqs" (parallel_args spec) refl
      ∙ number_flag-apart "--tensor-parallel-size" spec.tensor_parallel "--max-num-seqs"
          (batch_args spec) refl
      ∙ number_flag-asked "--max-num-seqs" spec.max_batch_size (last_args spec)
          (number_flag-last "--max-model-len" spec.max_model_len "--max-num-seqs"),
  text_flag-apart "--quantization" spec.quantization "--max-model-len" (parallel_args spec) refl
      ∙ number_flag-apart "--tensor-parallel-size" spec.tensor_parallel "--max-model-len"
          (batch_args spec) refl
      ∙ number_flag-apart "--max-num-seqs" spec.max_batch_size "--max-model-len" (last_args spec)
          refl
      ∙ number_flag-last "--max-model-len" spec.max_model_len "--max-model-len",
)

scaled : (n : ℕ) → n ≤ 2147483 → wrap32 (pos n *ℤ pos 1000) ≡ pos (n * 1000)
unfolding wrap32 ◌*ℤ◌
scaled n le = ground arith

-- Up to 2147483 cores the limit of a container is a thousand milli-CPUs for each, with no
-- wrap-around of the 32 bits; what is requested is the limit.
pub container_of-cpu :
    (spec : OptimizedInferenceSpec) (n : ℕ)
    → spec.resources.cpu_cores ≡ pos n
    → n ≤ 2147483
    → ((container_of spec).limits.cpu ≡ concat (int_text (pos (n * 1000))) "m")
      × ((container_of spec).requests ≡ (container_of spec).limits)
unfolding container_of resource_list
container_of-cpu spec n e le =
    (ap (λ z. concat (int_text z) "m") (ap (λ c. wrap32 (c *ℤ pos 1000)) e ∙ scaled n le), refl)
