-- ===== src/Operator/Deployment.antt =====
-- cmd/operator/main.go: the deployment that `reconcileDeployment` writes.
use inferbolt.Base.{
  ℕ, ◌-◌, ◌%◌, ◌^◌, suc, String, List, [], ◌∷◌, ◌++◌, ◌==◌, ltb, concat, if◌then◌else◌,
}
use inferbolt.Base.Int.{ℤ, pos, negsuc, ◌*ℤ◌, ltb_ℤ}
use inferbolt.Base.Texts.{decimal_text}
use inferbolt.Operator.Types.{OptimizedInference, OptimizedInferenceSpec, ResourceSpec}

-- `%d`
unfoldable pub int_text : ℤ → String
int_text (pos n) = decimal_text n
int_text (negsuc n) = concat "-" (decimal_text (suc n))

abbrev pub signed32 : ℕ → ℤ
signed32 u = if ltb u (2 ^ 31) then pos u else negsuc (2 ^ 32 - u - 1)

-- The value that 32 bits hold of a result, in two's complement.
unfoldable pub wrap32 : ℤ → ℤ
wrap32 (pos n) = signed32 (n % 2 ^ 32)
wrap32 (negsuc n) = signed32 (2 ^ 32 - 1 - n % 2 ^ 32)

-- The texts that `resource.MustParse` reads.
pub record ResourceList : Type 0 where
  pub gpu : String
  pub memory : String
  pub cpu : String

pub record Container : Type 0 where
  pub name : String
  pub image : String
  pub args : List String
  pub limits : ResourceList
  pub requests : ResourceList
  pub container_port : ℕ
  pub probe_path : String
  pub probe_port : ℕ
  pub initial_delay_seconds : ℕ
  pub period_seconds : ℕ

pub record Deployment : Type 0 where
  pub name : String
  pub namespace : String
  pub replicas : ℤ
  pub selector : List (String × String)
  pub template_labels : List (String × String)
  pub containers : List Container

unfoldable pub get_container_image : String → String
get_container_image engine =
    if engine == "vllm"
    then "vllm/vllm-openai:latest"
    else if engine == "sglang"
    then "lmsysorg/sglang:latest"
    else if engine == "tensorrt"
    then "nvcr.io/nvidia/tritonserver:24.01-trtllm-python-py3"
    else if engine == "llamacpp"
    then "ghcr.io/ggerganov/llama.cpp:server"
    else "vllm/vllm-openai:latest"

abbrev pub text_flag : String → String → List String
text_flag flag value = if value == "" then [] else flag ∷ value ∷ []

abbrev pub number_flag : String → ℤ → List String
number_flag flag n = if ltb_ℤ (pos 0) n then flag ∷ int_text n ∷ [] else []

unfoldable pub build_container_args : OptimizedInferenceSpec → List String
build_container_args spec =
    "--model" ∷ spec.model ∷ "--port" ∷ "8000" ∷ "--host" ∷ "0.0.0.0" ∷ []
    ++ (text_flag "--quantization" spec.quantization
        ++ (number_flag "--tensor-parallel-size" spec.tensor_parallel
            ++ (number_flag "--max-num-seqs" spec.max_batch_size
                ++ number_flag "--max-model-len" spec.max_model_len)))

unfoldable pub resource_list : ResourceSpec → ResourceList
unfolding wrap32 ◌*ℤ◌ int_text
resource_list r = record {
  gpu = int_text r.gpu_count;
  memory = concat (int_text r.memory_gb) "Gi";
  cpu = concat (int_text (wrap32 (r.cpu_cores *ℤ pos 1000))) "m";
}

unfoldable pub container_of : OptimizedInferenceSpec → Container
unfolding get_container_image build_container_args resource_list
container_of spec = record {
  name = "inference";
  image = get_container_image spec.engine;
  args = build_container_args spec;
  limits = resource_list spec.resources;
  requests = resource_list spec.resources;
  container_port = 8000;
  probe_path = "/health";
  probe_port = 8000;
  initial_delay_seconds = 30;
  period_seconds = 10;
}

unfoldable pub deployment_of : OptimizedInference → Deployment
unfolding container_of
deployment_of oi = record {
  name = concat "inferbolt-" oi.name;
  namespace = oi.namespace;
  replicas = oi.spec.replicas;
  selector = ("app", concat "inferbolt-" oi.name) ∷ [];
  template_labels = ("app", concat "inferbolt-" oi.name) ∷ [];
  containers = container_of oi.spec ∷ [];
}
