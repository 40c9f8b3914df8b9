-- ===== src/Logging.antt =====
-- include/yonaa/logging.hpp and src/logging.cpp: the set-up of the loggers, and the macros that log.
-- The library that writes the log is a parameter.
pub mod Setup
mod Tests
use yonaa.Base.{
  ℕ, ◌≡◌, ◌≢◌, ◌<◌, [], ◌∷◌, Bool, true, false, Option, none, some, Bytes, ◌==◌, if◌then◌else◌,
}

-- `enum class log_level`, which is also the choice of a method of a logger.
pub data LogLevel : Type 0 where
  trace debug info warn err critical off : LogLevel

-- What the code calls of spdlog. The state is the library's: its table of loggers, their settings,
-- and what has been written. `stdout_color_mt` gives nothing where it throws.
pub record Spdlog : Type 1 where
  pub State : Type 0
  pub Logger : Type 0
  pub level_value : LogLevel → ℕ
  pub stdout_color_mt : Bytes → State → Option (Logger × State)
  pub get : Bytes → State → Option Logger
  pub set_pattern : Logger → Bytes → State → State
  pub set_level : Logger → ℕ → State → State
  pub log : Logger → ℕ → Bytes → State → State

-- What spdlog documents, where `name_of` is the name of a logger and `level_of` the level that it
-- has. A new logger is registered under its name, and a name can be registered only once. The
-- settings of a logger concern that logger. A message below the level of its logger is not logged.
pub record IsSpdlog (L : Spdlog) (name_of : L.Logger → Bytes) (level_of : L.Logger → L.State → ℕ)
    : Type 0 where
  pub once :
      (n : Bytes) (s : L.State) (l : L.Logger) → L.get n s ≡ some l → L.stdout_color_mt n s ≡ none
  pub fresh :
      (n : Bytes) (s : L.State)
      → L.get n s ≡ none
      → (l : L.Logger) × (t : L.State) × (L.stdout_color_mt n s ≡ some (l, t))
        × (name_of l ≡ n)
        × (L.get n t ≡ some l)
        × ((m : Bytes) → m ≢ n → L.get m t ≡ L.get m s)
        × ((k : L.Logger) → name_of k ≢ n → level_of k t ≡ level_of k s)
  pub pattern_get :
      (l : L.Logger) (p : Bytes) (s : L.State) (n : Bytes)
      → L.get n (L.set_pattern l p s) ≡ L.get n s
  pub pattern_level :
      (l : L.Logger) (p : Bytes) (s : L.State) (k : L.Logger)
      → level_of k (L.set_pattern l p s) ≡ level_of k s
  pub level_get :
      (l : L.Logger) (v : ℕ) (s : L.State) (n : Bytes) → L.get n (L.set_level l v s) ≡ L.get n s
  pub level_set : (l : L.Logger) (v : ℕ) (s : L.State) → level_of l (L.set_level l v s) ≡ v
  pub level_other :
      (l : L.Logger) (v : ℕ) (s : L.State) (k : L.Logger)
      → name_of k ≢ name_of l
      → level_of k (L.set_level l v s) ≡ level_of k s
  pub below :
      (l : L.Logger) (v : ℕ) (message : Bytes) (s : L.State)
      → v < level_of l s
      → L.log l v message s ≡ s

-- `std::string_view`: the memory from its pointer on, and its size.
pub record StringView : Type 0 where
  pub memory : Bytes
  pub size : ℕ

-- The text that a `const char *` stands for: the bytes before the first zero.
abbrev pub c_string : Bytes → Bytes
c_string [] = []
c_string (b ∷ bs) = let rest = c_string bs in if b == 0 then [] else b ∷ rest

-- "yonaa"
abbrev pub internal_name : Bytes
internal_name = b'y' ∷ b'o' ∷ b'n' ∷ b'a' ∷ b'a' ∷ []

-- "%^[%T] %n: %v%$"
abbrev pub pattern_text : Bytes
pattern_text =
    b'%' ∷ b'^' ∷ b'[' ∷ b'%' ∷ b'T' ∷ b']' ∷ b' ' ∷ b'%' ∷ b'n' ∷ b':' ∷ b' ' ∷ b'%' ∷ b'v' ∷ b'%'
    ∷ b'$' ∷ []

module _ (L : Spdlog) where
  -- `detail::app_name`, and the state of spdlog.
  pub record Logging : Type 0 where
    pub app_name : Bytes
    pub state : L.State

  -- What `init` does with each of its loggers; `none` where `stdout_color_mt` throws.
  abbrev pub set_up : Bytes → LogLevel → L.State → Option L.State
  set_up name level s = elim (L.stdout_color_mt name s) [
    | none ↦ none
    | some (logger, t) ↦
        some (L.set_level logger (L.level_value level) (L.set_pattern logger pattern_text t))
  ]

  -- `init`: whether it returns, and what it leaves behind, also where `stdout_color_mt` throws.
  unfoldable pub init : StringView → LogLevel → Logging → Bool × Logging
  init app_name level g = elim (set_up internal_name level g.state) [
    | none ↦ (false, g)
    | some s ↦
        let name = c_string app_name.memory in
        elim (set_up name level s) [
          | none ↦ (false, record { app_name = name; state = s })
          | some t ↦ (true, record { app_name = name; state = t })
        ]
  ]

  -- `YONAA_LOG`, where `enabled` says whether YONAA_ENABLE_LOGGING is defined.
  unfoldable pub yonaa_log : Bool → Bytes → LogLevel → Bytes → L.State → L.State
  yonaa_log enabled logger_name level message s = elim enabled [
    | false ↦ s
    | true ↦ elim (L.get logger_name s) [
      | none ↦ s
      | some logger ↦ L.log logger (L.level_value level) message s
    ]
  ]

  -- `YONAA_INTERNAL_TRACE` and its like, and `YONAA_TRACE` and its like.
  abbrev pub internal_log : Bool → LogLevel → Bytes → Logging → Logging
  internal_log enabled level message g = record g {
    state = yonaa_log enabled internal_name level message g.state;
  }

  abbrev pub app_log : Bool → LogLevel → Bytes → Logging → Logging
  app_log enabled level message g = record g {
    state = yonaa_log enabled g.app_name level message g.state;
  }
