-- ===== src/Validate/Accepts.antt =====
-- What validate_function accepts, as a predicate, and that it accepts nothing else.
use open_functions.Prelude.{
  codes, true, false, Bool-cases, inl, inr, ℕ, ◌≤◌, Bytes, Dict, Option, none, some, [], ◌∷◌, ◌≡◌,
  refl, ◌↔◌, ok, arith,
}
use open_functions.Model.{Function, Trigger, http, pubsub, Source, dir, image, Runtime}
use open_functions.Validate.{
  validate_trigger, validate_range_u32, validate_env_keys, validate_env_size, validate_env,
  total_bytes, validate_python, validate_function, is_valid_env_key_shape, is_reserved_env_key,
}
use open_functions.Validate.Names.{
  IsName, IsTopic, IsIdentifier, IsReserved, All, validate_name_iff, validate_topic_iff,
  env_key_shape_iff, entry_point_iff, IsReserved-key_iff,
}

abbrev pub TriggerFits : Trigger → ℕ → Type 0
TriggerFits http t = (1 ≤ t) × (t ≤ 3600)
TriggerFits (pubsub topic) t = IsTopic topic × (1 ≤ t) × (t ≤ 540)

abbrev pub PythonFits : Option Runtime → Source → Bytes → Type 0
PythonFits (some Runtime.python314) (dir path bin) entry_point =
    IsIdentifier entry_point × (bin ≡ none)
PythonFits _ _ _ = Unit {0}

abbrev pub EnvKeyFits : Bytes × Bytes → Type 0
EnvKeyFits (key, _) = IsIdentifier key × ¬ IsReserved key

pub record Fits (f : Function) : Type 0 where
  pub name : IsName f.name
  pub trigger : TriggerFits f.trigger f.timeout_secs
  pub concurrency : (1 ≤ f.concurrency) × (f.concurrency ≤ 1000)
  pub memory : (128 ≤ f.memory_mib) × (f.memory_mib ≤ 32768)
  pub max_instances : (1 ≤ f.max_instances) × (f.max_instances ≤ 1000)
  pub idle_timeout : (10 ≤ f.idle_timeout_secs) × (f.idle_timeout_secs ≤ 86400)
  pub queue_max_wait : f.queue_max_wait_secs ≤ 600
  pub min_max : f.min_instances ≤ f.max_instances
  pub env_keys : All EnvKeyFits f.env
  pub env_size : total_bytes f.env ≤ 32768
  pub python : PythonFits f.runtime f.source f.entry_point

range_iff :
    (field : Bytes) (v lo hi : ℕ)
    → (validate_range_u32 field v lo hi ≡ ok tt) ↔ ((lo ≤ v) × (v ≤ hi))
unfolding validate_range_u32
range_iff field v lo hi = (λ h. ground arith, λ h. ground arith)

trigger_iff : (t : Trigger) (s : ℕ) → (validate_trigger t s ≡ ok tt) ↔ TriggerFits t s
unfolding validate_trigger
trigger_iff http s = range_iff _ s 1 3600
trigger_iff (pubsub topic) s = (
  λ h. ground (arith, (validate_topic_iff topic).0, (range_iff (codes "timeout_secs") s 1 540).0),
  λ h.
      rw
        ((validate_topic_iff topic).1 h.0, (range_iff (codes "timeout_secs") s 1 540).1 (h.1, h.2)),
)

KeyPasses : Bytes → Type 0
KeyPasses k = (is_valid_env_key_shape k ≡ true) × (is_reserved_env_key k ≡ false)

key_iff : (k v : Bytes) → KeyPasses k ↔ EnvKeyFits (k, v)
unfolding KeyPasses
key_iff k v = (
  λ h. ((env_key_shape_iff k).0 h.0, λ r. cc ((IsReserved-key_iff k).1 r, h.1)),
  λ h. (
    (env_key_shape_iff k).1 h.0,
    elim (Bool-cases (is_reserved_env_key k)) [
      | inl t ↦ absurd (h.1 ((IsReserved-key_iff k).0 t))
      | inr f ↦ f
    ],
  ),
)

env_keys_step :
    (k v : Bytes) (env : Dict Bytes Bytes)
    → (validate_env_keys ((k, v) ∷ env) ≡ ok tt) ↔ (KeyPasses k × (validate_env_keys env ≡ ok tt))
unfolding validate_env_keys KeyPasses
env_keys_step k v env = (λ h. ground arith, λ h. ground arith)

env_keys_iff : (env : Dict Bytes Bytes) → (validate_env_keys env ≡ ok tt) ↔ All EnvKeyFits env
unfolding validate_env_keys
env_keys_iff [] = (λ h. tt, λ h. refl)
env_keys_iff ((k, v) ∷ env) =
    let step = env_keys_step k v env in
    (
      λ h. ((key_iff k v).0 (step.0 h).0, (env_keys_iff env).0 (step.0 h).1),
      λ h. step.1 ((key_iff k v).1 h.0, (env_keys_iff env).1 h.1),
    )

python_iff :
    (r : Option Runtime) (s : Source) (e : Bytes)
    → (validate_python r s e ≡ ok tt) ↔ PythonFits r s e
unfolding validate_python
python_iff (some Runtime.python314) (dir path none) e =
    (λ h. ground (arith, (entry_point_iff e).0), λ h. rw ((entry_point_iff e).1 h.0))
python_iff (some Runtime.python314) (dir path (some b)) e =
    (λ h. ground (arith, (entry_point_iff e).0), λ h. cc)
python_iff (some Runtime.python314) (image _) e = (λ h. tt, λ h. refl)
python_iff (some Runtime.rust) s e = (λ h. tt, λ h. refl)
python_iff none s e = (λ h. tt, λ h. refl)

size_iff : (env : Dict Bytes Bytes) → (validate_env_size env ≡ ok tt) ↔ (total_bytes env ≤ 32768)
unfolding validate_env_size
size_iff env = (λ h. ground arith, λ h. ground arith)

env_iff :
    (env : Dict Bytes Bytes)
    → (validate_env env ≡ ok tt) ↔ (All EnvKeyFits env × (total_bytes env ≤ 32768))
unfolding validate_env
env_iff env = (
  λ h. ground (arith, (env_keys_iff env).0, (size_iff env).0),
  λ h. rw ((env_keys_iff env).1 h.0, (size_iff env).1 h.1),
)

-- A registration passes the checks exactly when every field is in its documented range, the name, the
-- topic, the environment keys and a Python entry point match their patterns, no key is reserved,
-- the environment's values fit in 32 KiB, the instance bounds are in order, and a Python source
-- names no `bin`.
pub validate_function_iff : (f : Function) → (validate_function f ≡ ok tt) ↔ Fits f
unfolding validate_function
validate_function_iff f = (
  λ h. record {
    name = (validate_name_iff f.name).0 (ground arith);
    trigger = (trigger_iff f.trigger f.timeout_secs).0 (ground arith);
    concurrency = ground arith;
    memory = ground arith;
    max_instances = ground arith;
    idle_timeout = ground arith;
    queue_max_wait = ground arith;
    min_max = ground arith;
    env_keys = ((env_iff f.env).0 (ground arith)).0;
    env_size = ((env_iff f.env).0 (ground arith)).1;
    python = (python_iff f.runtime f.source f.entry_point).0 (ground arith);
  },
  λ h.
      rw
        (
          (validate_name_iff f.name).1 h.name,
          (trigger_iff f.trigger f.timeout_secs).1 h.trigger,
          (env_iff f.env).1 (h.env_keys, h.env_size),
          (python_iff f.runtime f.source f.entry_point).1 h.python,
        )
        (ground arith),
)
