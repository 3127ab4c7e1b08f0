-- ===== src/Metrics/Registered.antt =====
-- What is registered through a registerer can be unregistered, for metric/registerer.go.
use go_dcp.Prelude.{
  ℕ, ◌≡◌, refl, ap, ◌∙◌, Bool, true, false, not, ◌&&◌, ◌||◌, some, List, [], ◌∷◌, arith, contains,
  Bool-cases, inl, inr, ◌==◌, ==_iff,
}
use go_dcp.Metrics.Registerer.{
  Registry, Registerer, wrap_with_registerer, without, register, register_each, register_all,
  unregister, unregister_each, unregister_all,
}

contains-without :
    (c d : ℕ) (cs : List ℕ) → contains d (without c cs) ≡ (contains d cs && not (c == d))
contains-without c d [] = refl
contains-without c d (x ∷ cs) = ground (arith, contains-without c d cs)

eq_nil : (cs : List ℕ) → ((d : ℕ) → contains d cs ≡ false) → cs ≡ []
eq_nil [] h = refl
eq_nil (x ∷ cs) h = absurd (ground (arith, h x))

abbrev pub HasNoneTwice : List ℕ → Type 0
HasNoneTwice [] = Unit
HasNoneTwice (x ∷ xs) = (contains x xs ≡ false) × HasNoneTwice xs

module _ (registry : Registry) where
  open registry use {State, has}

  abbrev pub every : ℕ → Bool
  every c = true

  -- The registry has what it had at first, and, besides, what the registerer keeps.
  pub record Keeps (first now : State) (cs : List ℕ) : Type 0 where
    pub has_both : (d : ℕ) → has now d ≡ (has first d || contains d cs)
    pub is_new : (d : ℕ) → contains d cs ≡ true → has first d ≡ false
    pub distinct : HasNoneTwice cs

  register-Keeps :
      (first now : State) (cs : List ℕ) (c : ℕ)
      → Keeps first now cs
      → (now' : State) × (cs' : List ℕ) × (fine : Bool) × (register registry every
            (record { wrap = some now; cs = cs })
            c
          ≡ (record { wrap = some now'; cs = cs' }, fine))
        × Keeps first now' cs'
  unfolding register
  register-Keeps first now cs c k = elim (Bool-cases (registry.register now c true).1) [
    | inl fine ↦
        let new : has now c ≡ false = registry.register-new now c fine in
        let absent : contains c cs ≡ false = ground (arith, k.has_both c) in
        (
          (registry.register now c true).0,
          c ∷ cs,
          true,
          rw (fine, absent) refl,
          record {
            has_both = λ d. ground (arith, registry.has-register now c d, k.has_both d, fine);
            is_new = λ d h. ground (arith, k.is_new d, k.has_both c, ==_iff c d);
            distinct = (absent, k.distinct);
          },
        )
    | inr error ↦ (
      (registry.register now c true).0,
      cs,
      false,
      rw error refl,
      record {
        has_both = λ d. ground (arith, registry.has-register now c d, k.has_both d, error);
        is_new = k.is_new;
        distinct = k.distinct;
      },
    )
  ]

  register_each-Keeps :
      (l : List ℕ) (first now : State) (cs : List ℕ) (result : Bool)
      → Keeps first now cs
      → (now' : State) × (cs' : List ℕ) × (fine : Bool) × (register_each registry every l
            (record { wrap = some now; cs = cs })
            result
          ≡ (record { wrap = some now'; cs = cs' }, fine))
        × Keeps first now' cs'
  unfolding register_each
  register_each-Keeps [] first now cs result k = (now, cs, result, refl, k)
  register_each-Keeps (c ∷ l) first now cs result k =
      let (now', cs', fine, same, k') = register-Keeps first now cs c k in
      let (now'', cs'', fine', same', k'') =
        register_each-Keeps l first now' cs' (result && fine) k' in
      (
        now'',
        cs'',
        fine',
        ap (λ p. register_each registry every l p.0 (result && p.1)) same ∙ same',
        k'',
      )

  -- What is left to unregister is what the registerer still keeps.
  unregister_each-Keeps :
      (l : List ℕ) (first now : State) (cs : List ℕ)
      → Keeps first now l
      → ((d : ℕ) → contains d cs ≡ contains d l)
      → (now' : State) × (unregister_each registry every l
            (record { wrap = some now; cs = cs })
            true
          ≡ (record { wrap = some now'; cs = [] }, true))
        × ((d : ℕ) → has now' d ≡ has first d)
  unfolding unregister_each unregister
  unregister_each-Keeps [] first now cs k same =
      (now, rw (eq_nil cs same) refl, λ d. ground (arith, k.has_both d))
  unregister_each-Keeps (c ∷ l) first now cs k same =
      let now' = (registry.unregister now c true).0 in
      let new : has first c ≡ false = k.is_new c (ground (arith, ==_iff c c)) in
      let done : (registry.unregister now c true).1 ≡ true =
        ground (arith, registry.unregister-has now c, k.has_both c, ==_iff c c) in
      let k' : Keeps first now' l = record {
        has_both = λ d.
            ground
              (arith, registry.has-unregister now c d, k.has_both d, new, k.distinct.0, ==_iff c d);
        is_new = λ d h. k.is_new d (ground arith);
        distinct = k.distinct.1;
      } in
      let (now'', left, had) =
        unregister_each-Keeps l first now' (without c cs) k'
          (λ d. ground (arith, contains-without c d cs, same d, k.distinct.0, ==_iff c d)) in
      (now'', rw done left, had)

  -- Collectors are registered through a new registerer over a registry, some of them maybe in vain,
  -- and they describe metrics whenever they are asked. Then UnregisterAll returns true, and the
  -- registry has what it had before.
  pub unregister_all-register_all :
      (first : State) (collectors : List ℕ)
      → (u : Registerer registry) × (fine : Bool) × (last : State) × (register_all registry every
            (wrap_with_registerer registry (some first))
            collectors
          ≡ (u, fine))
        × (unregister_all registry every u ≡ (record { wrap = some last; cs = [] }, true))
        × ((d : ℕ) → has last d ≡ has first d)
  unfolding register_all unregister_all wrap_with_registerer
  unregister_all-register_all first collectors =
      let nothing_kept : Keeps first first [] = record {
        has_both = λ d. ground arith;
        is_new = λ d h. cc;
        distinct = tt;
      } in
      let (now, cs, fine, registered, k) =
        register_each-Keeps collectors first first [] true nothing_kept in
      let (last, left, had) = unregister_each-Keeps cs first now cs k (λ d. refl) in
      (record { wrap = some now; cs = cs }, fine, last, registered, left, had)
