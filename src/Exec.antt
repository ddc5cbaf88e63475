-- ===== src/Exec.antt =====
-- Python statements that act on the outside world and may raise. `W` is the state of that world,
-- of which the program sees only what its hooks answer; what was done before a raise stays done.
pub mod Ensures
use frontier_refactor_factor.Prelude.{String, Bool, true, false, ◌||◌, str_eq, Message}

-- The classes that the handlers tell apart. The others carry their `__name__`, beside the class of
-- the standard library that they derive from.
pub data ErrorClass : Type 0 where
  sandbox_error resource_pressure timeout_error subject_failed subject_unreachable model_error
        transport_error :
      ErrorClass
  runtime_error os_error value_error other_error : String → ErrorClass
  keyboard_interrupt system_exit : ErrorClass

pub record Exn : Type 0 where
  pub class : ErrorClass
  pub text : String

-- `type(e).__name__`
abbrev pub class_name : ErrorClass → String
class_name sandbox_error = "SandboxError"
class_name resource_pressure = "ResourcePressure"
class_name timeout_error = "TimeoutError"
class_name subject_failed = "SubjectFailed"
class_name subject_unreachable = "SubjectUnreachable"
class_name model_error = "ModelError"
class_name transport_error = "TransportError"
class_name (runtime_error n) = n
class_name (os_error n) = n
class_name (value_error n) = n
class_name (other_error n) = n
class_name keyboard_interrupt = "KeyboardInterrupt"
class_name system_exit = "SystemExit"

-- `isinstance(e, RuntimeError)`; a generator's, a sandbox's and a gateway's errors are such.
abbrev pub is_runtime_error : ErrorClass → Bool
is_runtime_error sandbox_error = true
is_runtime_error resource_pressure = true
is_runtime_error subject_failed = true
is_runtime_error subject_unreachable = true
is_runtime_error model_error = true
is_runtime_error transport_error = true
is_runtime_error (runtime_error n) = true
is_runtime_error _ = false

-- `isinstance(e, OSError)`, which `TimeoutError` is
abbrev pub is_os_error : ErrorClass → Bool
is_os_error timeout_error = true
is_os_error (os_error n) = true
is_os_error _ = false

abbrev pub is_value_error : ErrorClass → Bool
is_value_error (value_error n) = true
is_value_error _ = false

-- `(SandboxError, ResourcePressure)`
abbrev pub is_sandbox_or_pressure : ErrorClass → Bool
is_sandbox_or_pressure sandbox_error = true
is_sandbox_or_pressure resource_pressure = true
is_sandbox_or_pressure _ = false

abbrev pub is_timeout : ErrorClass → Bool
is_timeout timeout_error = true
is_timeout _ = false

-- `isinstance(e, Exception)`
abbrev pub is_exception : ErrorClass → Bool
is_exception keyboard_interrupt = false
is_exception system_exit = false
is_exception _ = true

-- Whose problem a refusal was.
pub data Fault : Type 0 where
  material factory : Fault

-- The exception by which a stage refuses a candidate.
pub record Stage : Type 0 where
  pub stage : String
  pub reason : String
  pub fault : Fault
  pub detail : Message

pub data Raised : Type 0 where
  refusal : Stage → Raised
  error : Exn → Raised

pub data Result {ℓ} (A : Type ℓ) : Type ℓ where
  ok : A → Result A
  err : Raised → Result A

abbrev pub Exec : Type 0 → Type 0 → Type 0
Exec W A = W → Result A × W

abbrev pub pure : {W A : Type 0} → A → Exec W A
pure a w = (ok a, w)

abbrev pub lift : {W A : Type 0} → Result A → Exec W A
lift r w = (r, w)

-- an attribute of an object outside
abbrev pub gets : {W A : Type 0} → (W → A) → Exec W A
gets f w = (ok (f w), w)

abbrev pub continue : {W A B : Type 0} → Result A × W → (A → Exec W B) → Result B × W
continue (ok a, w) f = f a w
continue (err e, w) f = (err e, w)

infixl 10 ◌>>=◌ ◌>>◌
abbrev pub ◌>>=◌ : {W A B : Type 0} → Exec W A → (A → Exec W B) → Exec W B
◌>>=◌ m f w = continue (m w) f

abbrev pub ◌>>◌ : {W A B : Type 0} → Exec W A → Exec W B → Exec W B
m >> n = m >>= λ _. n

abbrev pub map_error : {A : Type 0} → (Raised → Raised) → Result A → Result A
map_error h (ok a) = ok a
map_error h (err e) = err (h e)

-- `try: m` with handlers that only raise again: `h` is what is raised in the end.
abbrev pub attempt : {W A : Type 0} → (Raised → Raised) → Exec W A → Exec W A
attempt h m w = let (r, w') = m w in (map_error h r, w')

abbrev pub refuse : {A : Type 0} → String → String → Fault → Message → Result A
refuse s r f d = err (refusal (record { stage = s; reason = r; fault = f; detail = d }))

abbrev pub when_refuse : Bool → String → String → Fault → Message → Result (Unit {0})
when_refuse true s r f d = refuse s r f d
when_refuse false s r f d = ok tt
