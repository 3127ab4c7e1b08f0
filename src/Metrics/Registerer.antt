-- ===== src/Metrics/Registerer.antt =====
-- metric/registerer.go: a registry of Prometheus that remembers what was registered through it.
-- Collectors are told apart by numbers. The registry underneath is a library.
use go_dcp.Prelude.{
  ℕ, ◌≡◌, Bool, true, false, not, ◌&&◌, ◌||◌, Option, none, some, List, [], ◌∷◌, contains, ◌==◌,
  if◌then◌else◌,
}

-- prometheus.Registerer. The last argument of `register` and `unregister` is whether the collector
-- describes a metric when it is called: one that describes none can be registered without a check,
-- and cannot be unregistered. `register` also answers whether there is no error, and `unregister`
-- whether the collector was registered. `has` tells what is registered with its descriptions.
pub record Registry : Type 1 where
  pub State : Type 0
  pub register : State → ℕ → Bool → State × Bool
  pub unregister : State → ℕ → Bool → State × Bool
  pub has : State → ℕ → Bool
  pub has-register :
      (s : State) (c d : ℕ)
      → has (register s c true).0 d ≡ (has s d || ((register s c true).1 && c == d))
  pub register-new : (s : State) (c : ℕ) → (register s c true).1 ≡ true → has s c ≡ false
  pub unregister-has : (s : State) (c : ℕ) → (unregister s c true).1 ≡ has s c
  pub has-unregister :
      (s : State) (c d : ℕ) → has (unregister s c true).0 d ≡ (has s d && not (c == d))
  pub unregister-undescribed : (s : State) (c : ℕ) → unregister s c false ≡ (s, false)

abbrev pub put : ℕ → List ℕ → List ℕ
put c cs = if contains c cs then cs else c ∷ cs

abbrev pub without : ℕ → List ℕ → List ℕ
without c [] = []
without c (d ∷ cs) = let rest = without c cs in if c == d then rest else d ∷ rest

module _ (registry : Registry) where
  open registry use {State}

  pub record Registerer : Type 0 where
    pub wrap : Option State
    pub cs : List ℕ

  unfoldable pub wrap_with_registerer : Option State → Registerer
  wrap_with_registerer reg = record { wrap = reg; cs = [] }

  -- `describes` tells which collectors describe a metric at the time.
  module _ (describes : ℕ → Bool) where
    -- Whether there is no error.
    abbrev pub register_in : Registerer → Option State → ℕ → Registerer × Bool
    register_in u none c = (u, true)
    register_in u (some w) c =
        let (w', fine) = registry.register w c (describes c) in
        (record { wrap = some w'; cs = if fine then put c u.cs else u.cs }, fine)

    unfoldable pub register : Registerer → ℕ → Registerer × Bool
    register u c = register_in u u.wrap c

    abbrev pub unregister_in : Registerer → Option State → ℕ → Registerer × Bool
    unregister_in u none c = (u, false)
    unregister_in u (some w) c =
        let (w', done) = registry.unregister w c (describes c) in
        (record { wrap = some w'; cs = if done then without c u.cs else u.cs }, done)

    unfoldable pub unregister : Registerer → ℕ → Registerer × Bool
    unregister u c = unregister_in u u.wrap c

    -- The loop goes over what is in the map when it begins; it deletes only what it is at.
    unfoldable pub unregister_each : List ℕ → Registerer → Bool → Registerer × Bool
    unfolding unregister
    unregister_each [] u success = (u, success)
    unregister_each (c ∷ cs) u success =
        let (u', done) = unregister u c in unregister_each cs u' (success && done)

    unfoldable pub unregister_all : Registerer → Registerer × Bool
    unfolding unregister_each
    unregister_all u = unregister_each u.cs u true

    unfoldable pub register_each : List ℕ → Registerer → Bool → Registerer × Bool
    unfolding register
    register_each [] u result = (u, result)
    register_each (c ∷ cs) u result =
        let (u', fine) = register u c in register_each cs u' (result && fine)

    unfoldable pub register_all : Registerer → List ℕ → Registerer × Bool
    unfolding register_each
    register_all u cs = register_each cs u true
