-- ===== src/Logging/Tests.antt =====
-- A small log library, on which the theorems' assumptions hold.
use yonaa.Base.{
  ℕ, ◌≡◌, ◌≢◌, refl, [], ◌∷◌, List, Bool, true, false, none, some, Bytes, Bool-cases, inl, inr,
  ◌||◌, arith, if◌then◌else◌, ltb, lt→ltb,
}
use yonaa.Resolve.{string_eq}
use yonaa.Logging.{
  Spdlog, IsSpdlog, LogLevel, trace, debug, info, warn, err, critical, off, StringView, Logging,
  c_string, internal_name, init, internal_log, app_log,
}
use yonaa.Logging.Setup.{HasLogger, init-HasLogger, init-init, app_log-init}

string_eq_same : (a : Bytes) → string_eq a a ≡ true
string_eq_same [] = refl
string_eq_same (c ∷ cs) = ground (arith, string_eq_same cs)

string_eq_sound : (a b : Bytes) → string_eq a b ≡ true → a ≡ b
string_eq_sound [] [] h = refl
string_eq_sound [] (d ∷ ds) h = cc
string_eq_sound (c ∷ cs) [] h = cc
string_eq_sound (c ∷ cs) (d ∷ ds) h = ground (arith, string_eq_sound cs ds)

string_eq_differ : (a b : Bytes) → a ≢ b → string_eq a b ≡ false
string_eq_differ a b d = elim (Bool-cases (string_eq a b)) [
  | inl e ↦ absurd (d (string_eq_sound a b e))
  | inr e ↦ e
]

-- The names of the loggers, the levels, and what was written.
record Written : Type 0 where
  names : List Bytes
  levels : Bytes → ℕ
  lines : List (Bytes × Bytes)

abbrev has_name : Bytes → List Bytes → Bool
has_name n [] = false
has_name n (m ∷ ms) = string_eq n m || has_name n ms

abbrev value : LogLevel → ℕ
value trace = 0
value debug = 1
value info = 2
value warn = 3
value err = 4
value critical = 5
value off = 6

abbrev small : Spdlog
small = record {
  State = Written;
  Logger = Bytes;
  level_value = value;
  stdout_color_mt =
      λ n s. if has_name n s.names then none else some (n, record s { names = n ∷ s.names });
  get = λ n s. if has_name n s.names then some n else none;
  set_pattern = λ l p s. s;
  set_level = λ l v s. record s { levels = λ k. if string_eq k l then v else s.levels k };
  log = λ l v message s.
      if ltb v (s.levels l) then s else record s { lines = (l, message) ∷ s.lines };
}

small-once :
    (n : Bytes) (s : Written) (l : Bytes)
    → small.get n s ≡ some l
    → small.stdout_color_mt n s ≡ none
small-once n s l h = ground arith

small-absent : (n : Bytes) (s : Written) → small.get n s ≡ none → has_name n s.names ≡ false
small-absent n s h = ground arith

small-IsSpdlog : IsSpdlog small (λ n. n) (λ n s. s.levels n)
small-IsSpdlog = record {
  once = small-once;
  fresh = λ n s h. (
    n,
    record s { names = n ∷ s.names },
    rw (small-absent n s h) refl,
    refl,
    rw (string_eq_same n) refl,
    (λ m d. rw (string_eq_differ m n d) refl),
    λ k d. refl,
  );
  pattern_get = λ l p s n. refl;
  pattern_level = λ l p s k. refl;
  level_get = λ l v s n. refl;
  level_set = λ l v s. rw (string_eq_same l) refl;
  level_other = λ l v s k d. rw (string_eq_differ k l d) refl;
  below = λ l v message s b. rw (lt→ltb v (s.levels l) b) refl;
}

abbrev unused : Logging small
unused = record { app_name = []; state = record { names = []; levels = λ n. 0; lines = [] } }

-- "app", with its zero byte and what happens to follow it
abbrev app : StringView
app = record { memory = b'a' ∷ b'p' ∷ b'p' ∷ 0 ∷ b'x' ∷ []; size = 3 }

app_differs : c_string app.memory ≢ internal_name
app_differs e = cc

init-HasLogger_example :
    let name = c_string app.memory in
    let r = init small app warn unused in
    (r.0 ≡ true)
    × (r.1.app_name ≡ name)
    × HasLogger small (λ n. n) (λ n s. s.levels n) small-IsSpdlog internal_name warn r.1.state
    × HasLogger small (λ n. n) (λ n s. s.levels n) small-IsSpdlog name warn r.1.state
init-HasLogger_example =
    init-HasLogger small (λ n. n) (λ n s. s.levels n) small-IsSpdlog app warn unused refl refl
      app_differs

init-init_example :
    init small app trace (init small app warn unused).1 ≡ (false, (init small app warn unused).1)
init-init_example =
    init-init small (λ n. n) (λ n s. s.levels n) small-IsSpdlog app app warn trace unused

app_log-init_example :
    let r = init small app warn unused in
    (internal_log small true info (1 ∷ []) r.1 ≡ r.1) × (app_log small true info (1 ∷ []) r.1 ≡ r.1)
app_log-init_example =
    app_log-init small (λ n. n) (λ n s. s.levels n) small-IsSpdlog app warn info true (1 ∷ [])
      unused refl refl app_differs (omega arith)
