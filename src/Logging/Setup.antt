-- ===== src/Logging/Setup.antt =====
-- What `init` sets up, and what a second call does.
use yonaa.Base.{
  ℕ, ◌≡◌, ◌≢◌, ◌∙◌, ◌<◌, ap, refl, sym, Bool, true, false, none, some, Bytes, inl, inr,
  Option-cases, subst,
}
use yonaa.Logging.{
  Spdlog, IsSpdlog, LogLevel, StringView, Logging, c_string, internal_name, pattern_text, set_up,
  init, yonaa_log, internal_log, app_log,
}

module _ (L : Spdlog) (name_of : L.Logger → Bytes) (level_of : L.Logger → L.State → ℕ)
    (laws : IsSpdlog L name_of level_of) where
  -- There is a logger of the name, with the level.
  abbrev pub HasLogger : Bytes → LogLevel → L.State → Type 0
  HasLogger n level s =
      (l : L.Logger) × (L.get n s ≡ some l) × (name_of l ≡ n) × (level_of l s ≡ L.level_value level)

  -- What a set-up leaves as it was: the loggers of other names.
  Others : Bytes → L.State → L.State → Type 0
  Others n s t =
      ((m : Bytes) → m ≢ n → L.get m t ≡ L.get m s)
      × ((m : Bytes) (v : LogLevel) → m ≢ n → HasLogger m v s → HasLogger m v t)

  set_up-HasLogger :
      (n : Bytes) (level : LogLevel) (s : L.State)
      → L.get n s ≡ none
      → (t : L.State) × (set_up L n level s ≡ some t) × HasLogger n level t × Others n s t
  unfolding Others
  set_up-HasLogger n level s h =
      let (l, t, e, named, got, others, levels) = laws.fresh n s h in
      let v = L.level_value level in
      let p = L.set_pattern l pattern_text t in
      let u = L.set_level l v p in
      let same = λ (m : Bytes). laws.level_get l v p m ∙ laws.pattern_get l pattern_text t m in
      (
        u,
        rw (e, set_up) refl,
        (l, same n ∙ got, named, laws.level_set l v p),
        (
          λ m d. same m ∙ others m d,
          λ m w d k.
              let (l', got', named', level') = k in
              (
                l',
                same m ∙ others m d ∙ got',
                named',
                laws.level_other l v p l' (λ x. d (sym named' ∙ x ∙ named))
                    ∙ laws.pattern_level l pattern_text t l'
                    ∙ levels l' (λ x. d (sym named' ∙ x))
                    ∙ level',
              ),
        ),
      )

  -- A first call of `init`, with a name other than the library's own, returns. Then there is a logger
  -- of the library's name and one of the application's, both with the level given, and the
  -- application's name is kept: the text from the start of the view to the first zero byte, however
  -- long the view is. Assumed: spdlog does what it documents, and has no logger of either name yet.
  pub init-HasLogger :
      (v : StringView) (level : LogLevel) (g : Logging L)
      → let name = c_string v.memory in
        let r = init L v level g in
        L.get internal_name g.state ≡ none
        → L.get name g.state ≡ none
        → name ≢ internal_name
        → (r.0 ≡ true)
          × (r.1.app_name ≡ name)
          × HasLogger internal_name level r.1.state
          × HasLogger name level r.1.state
  unfolding init Others
  init-HasLogger v level g h k d =
      let name = c_string v.memory in
      let (s, e, inner, others) = set_up-HasLogger internal_name level g.state h in
      let (t, f, outer, rest) = set_up-HasLogger name level s (others.0 name d ∙ k) in
      rw (init, e, f) (refl, refl, rest.1 internal_name level (λ x. d (sym x)) inner, outer)

  set_up_taken :
      (n : Bytes) (level : LogLevel) (s : L.State)
      → (l : L.Logger) × (L.get n s ≡ some l)
      → set_up L n level s ≡ none
  set_up_taken n level s h = rw (set_up, laws.once n s h.0 h.1) refl

  differ :
      (n : Bytes) (s : L.State) (l : L.Logger)
      → internal_name ≡ n
      → L.get n s ≡ none
      → L.get internal_name s ≡ some l
      → ⊥
  differ n s l x h k = let e = ap (λ m. L.get m s) x in absurd (cc)

  Registered : L.State → Type 0
  Registered s = (l : L.Logger) × (L.get internal_name s ≡ some l)

  init_again :
      (v : StringView) (level : LogLevel) (g : Logging L)
      → Registered g.state
      → init L v level g ≡ (false, g)
  unfolding init Registered
  init_again v level g r = rw (init, set_up_taken internal_name level g.state r) refl

  init-Registered :
      (v : StringView) (level : LogLevel) (g : Logging L) → Registered (init L v level g).1.state
  unfolding init Registered Others
  init-Registered v level g = elim (Option-cases (L.get internal_name g.state)) [
    | inr (l, e) ↦ rw (ap (λ (r : Bool × Logging L). r.1) (init_again v level g (l, e))) (l, e)
    | inl e ↦
        let name = c_string v.memory in
        let (s, f, inner, others) = set_up-HasLogger internal_name level g.state e in
        elim (Option-cases (L.get name s)) [
          | inr (l, k) ↦
              let (i, got, n, j) = inner in rw (init, f, set_up_taken name level s (l, k)) (i, got)
          | inl k ↦
              let (t, u, outer, rest) = set_up-HasLogger name level s k in
              let (i, got, n, j) = inner in
              rw (init, f, u) (i, rest.0 internal_name (λ x. differ name s i x k got) ∙ got)
        ]
  ]

  -- A second call of `init` throws and changes nothing, not even the level, whatever the first was
  -- called with and whether it returned or threw. Assumed: spdlog does what it documents.
  pub init-init :
      (v w : StringView) (level level' : LogLevel) (g : Logging L)
      → init L w level' (init L v level g).1 ≡ (false, (init L v level g).1)
  init-init v w level level' g =
      init_again w level' (init L v level g).1 (init-Registered v level g)

  quiet :
      (n : Bytes) (level lower : LogLevel) (enabled : Bool) (message : Bytes) (s : L.State)
      → HasLogger n level s
      → L.level_value lower < L.level_value level
      → yonaa_log L enabled n lower message s ≡ s
  unfolding yonaa_log
  quiet n level lower false message s h b = refl
  quiet n level lower true message s (l, got, named, e) b =
      rw (yonaa_log, got)
        (laws.below l (L.level_value lower) message s
          (subst (λ m. L.level_value lower < m) (sym e) b))

  -- After a first call of `init`, with a name other than the library's own, the macros of the library
  -- and of the application write nothing that is below the level that `init` was given. Assumed:
  -- spdlog does what it documents, and has no logger of either name before.
  pub app_log-init :
      (v : StringView) (level lower : LogLevel) (enabled : Bool) (message : Bytes) (g : Logging L)
      → let name = c_string v.memory in
        let r = init L v level g in
        L.get internal_name g.state ≡ none
        → L.get name g.state ≡ none
        → name ≢ internal_name
        → L.level_value lower < L.level_value level
        → (internal_log L enabled lower message r.1 ≡ r.1)
          × (app_log L enabled lower message r.1 ≡ r.1)
  app_log-init v level lower enabled message g h k d b =
      let name = c_string v.memory in
      let r = init L v level g in
      let (ok, named, inner, outer) = init-HasLogger v level g h k d in
      (
        ap (λ (s : L.State). record r.1 { state = s })
            (quiet internal_name level lower enabled message r.1.state inner b),
        ap (λ (s : L.State). record r.1 { state = s })
            (quiet r.1.app_name level lower enabled message r.1.state (rw named outer) b),
      )
