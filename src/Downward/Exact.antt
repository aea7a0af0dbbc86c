-- ===== src/Downward/Exact.antt =====
-- The worklist of `run` taints exactly what def-use flow reaches.
use linux_analysis.Prelude.{
  ℕ, zero, suc, ◌≡◌, ◌↔◌, ◌⊎◌, inl, inr, some, List, [], ◌∷◌, Map, contains, ◌∈◌, ◌⊆◌, ◌==◌,
  ==_refl, Bool-cases, List-cases, some_inj, arith,
}
use linux_analysis.Llvm.{Ir, Value, Function}
use linux_analysis.State.{Config, State}
use linux_analysis.Downward.{pop, process, drain}
use linux_analysis.Downward.Flow.{Taints, successors}
use linux_analysis.Downward.Uses.{process-Taints}

module _ (ir : Ir) (cfg : Config) (targets : Map (List Function)) where
  abbrev next : Value → List Value
  next v = successors ir cfg targets v

-- The values that flow leads to from some starting set.
pub data Reach (ir : Ir) (cfg : Config) (targets : Map (List Function)) (starts : List Value)
    : Value → Type 0 where
  start : {x : Value} → x ∈ starts → Reach ir cfg targets starts x
  flow :
      {v x : Value}
      → Reach ir cfg targets starts v
      → x ∈ successors ir cfg targets v
      → Reach ir cfg targets starts x

module _ (ir : Ir) (cfg : Config) (targets : Map (List Function)) where
  -- All that waits is tainted, and what is tainted waits or has had all its uses followed.
  pub record IsPending (s : State) : Type 0 where
    pub waiting : s.worklist ⊆ s.tainted_values
    pub followed :
        (v : Value)
        → v ∈ s.tainted_values
        → (v ∈ s.worklist) ⊎ (successors ir cfg targets v ⊆ s.tainted_values)

  process-IsPending :
      (s : State) (v : Value) (rest : List Value)
      → s.worklist ≡ v ∷ rest
      → IsPending s
      → IsPending (process ir cfg targets v (pop s rest))
  process-IsPending s v rest e h = record { waiting = waits; followed = follows }
    where
      t : Taints (next ir cfg targets v) (pop s rest) (process ir cfg targets v (pop s rest))
      t = process-Taints ir cfg targets v (pop s rest)

      waits :
          (process ir cfg targets v (pop s rest)).worklist
          ⊆ (process ir cfg targets v (pop s rest)).tainted_values
      waits x m = let old = h.waiting x in ground (arith, t.tainted x, t.stacked x, rw e at old)

      follows :
          (x : Value)
          → x ∈ (process ir cfg targets v (pop s rest)).tainted_values
          → (x ∈ (process ir cfg targets v (pop s rest)).worklist)
            ⊎ (next ir cfg targets x ⊆ (process ir cfg targets v (pop s rest)).tainted_values)
      follows x m = elim (Bool-cases (contains x s.tainted_values)) [
        | inr new ↦ inl (ground (arith, t.tainted x, t.stacked x))
        | inl old ↦ elim (h.followed x old) [
          | inr done ↦ inr (λ y hy. ground (arith, t.tainted y, done y hy))
          | inl wait ↦ elim (Bool-cases (x == v)) [
            | inl same ↦
                let q : x ≡ v = ground arith in inr (rw q (λ y hy. ground (arith, t.tainted y)))
            | inr other ↦ let wait' = rw e at wait in inl (ground (arith, t.stacked x, wait'))
          ]
        ]
      ]

  Reach-mono :
      {a b : List Value} {x : Value}
      → ((y : Value) → y ∈ a → Reach ir cfg targets b y)
      → Reach ir cfg targets a x
      → Reach ir cfg targets b x
  Reach-mono h (start m) = h _ m
  Reach-mono h (flow r m) = flow (Reach-mono h r) m

  pub closed-Reach :
      (s : State)
      → s.worklist ≡ []
      → IsPending s
      → {x : Value} → Reach ir cfg targets s.tainted_values x
      → x ∈ s.tainted_values
  closed-Reach s e h (start m) = m
  closed-Reach s e h (flow {v} r m) = elim (h.followed v (closed-Reach s e h r)) [
    | inl wait ↦ let no_wait = rw e at wait in cc
    | inr done ↦ done _ m
  ]

  abbrev IsExact : State → State → Type 0
  IsExact s t =
      IsPending t
      × (t.worklist ≡ [])
      × ((x : Value) → (x ∈ t.tainted_values) ↔ Reach ir cfg targets s.tainted_values x)

  at_end : (s : State) → s.worklist ≡ [] → IsPending s → IsExact s s
  at_end s e h = (h, e, λ x. (start, closed-Reach s e h))

  -- If all that is tainted and not on the worklist has had its uses followed, then when the
  -- worklist is empty a value is tainted exactly if flow leads to it from a value that was
  -- tainted before.
  pub drain_exact :
      (fuel : ℕ) (s t : State)
      → IsPending s
      → drain ir cfg targets fuel s ≡ some t
      → IsPending t
        × (t.worklist ≡ [])
        × ((x : Value) → (x ∈ t.tainted_values) ↔ Reach ir cfg targets s.tainted_values x)
  unfolding drain
  drain_exact zero s t h e = elim (List-cases s.worklist) [
    | inl none_left ↦
        let same : s ≡ t = some_inj (rw (none_left, drain) at e) in
        rw (← same) (at_end s none_left h)
    | inr (v, rest, more) ↦ cc (rw (more, drain) at e)
  ]
  drain_exact (suc n) s t h e = elim (List-cases s.worklist) [
    | inl none_left ↦
        let same : s ≡ t = some_inj (rw (none_left, drain) at e) in
        rw (← same) (at_end s none_left h)
    | inr (v, rest, more) ↦
        let s' = process ir cfg targets v (pop s rest) in
        let effect = process-Taints ir cfg targets v (pop s rest) in
        let (pending, empty, exact) =
          drain_exact n s' t (process-IsPending s v rest more h) (rw (more, drain) at e) in
        let v_tainted = h.waiting v (rw more (ground (arith, ==_refl v))) in
        (
          pending,
          empty,
          λ x. (
            λ m.
                Reach-mono
                  (λ y hy. elim (Bool-cases (contains y s.tainted_values)) [
                    | inl old ↦ start old
                    | inr new ↦ flow (start v_tainted) (ground (arith, effect.tainted y))
                  ])
                  ((exact x).0 m),
            λ r. (exact x).1 (Reach-mono (λ y hy. start (ground (arith, effect.tainted y))) r),
          ),
        )
  ]
